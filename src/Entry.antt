-- ===== src/Entry.antt =====
-- The log entry of the RPC interface (kitex_gen/ddbr/rpc/sever/server.go, type LogEntry), and logs.
use ddbr.Common.{
  ℕ, zero, suc, ◌+◌, ◌≡◌, refl, Bool, false, List, [], ◌∷◌, ◌++◌, Option, none, some, arith, length,
  get_last?, take, subst, ap, ◌∙◌,
}
use ddbr.Common.Int.{ℤ, pos}
use ddbr.Common.Eq.{Str}

pub record LogEntry : Type 0 where
  pub term : ℤ
  pub index : ℤ
  pub command : Str
  pub pre_committed : Bool
  pub is_read : Bool

-- An entry as a composite literal with these three fields makes it.
abbrev pub new_entry : ℤ → ℤ → Str → LogEntry
new_entry t i c = record {
  term = t;
  index = i;
  command = c;
  pre_committed = false;
  is_read = false;
}

abbrev index_of : Option LogEntry → ℤ
index_of none = pos 0
index_of (some e) = e.index

abbrev term_of : Option LogEntry → ℤ
term_of none = pos 0
term_of (some e) = e.term

-- `lastLogIndex` and `lastLogTerm`: 0 for an empty log
unfoldable pub last_index : List LogEntry → ℤ
last_index log = index_of (get_last? log)

unfoldable pub last_term : List LogEntry → ℤ
last_term log = term_of (get_last? log)

-- The entries carry the indices n + 1, n + 2, and so on.
abbrev pub IsConsecutive : ℕ → List LogEntry → Type 0
IsConsecutive n [] = Unit {0}
IsConsecutive n (e ∷ log) = (e.index ≡ pos (suc n)) × IsConsecutive (suc n) log

pub IsConsecutive-append :
    (n : ℕ) (xs ys : List LogEntry)
    → IsConsecutive n xs
    → IsConsecutive (n + length xs) ys
    → IsConsecutive n (xs ++ ys)
IsConsecutive-append n [] ys hx hy = subst (λ k. IsConsecutive k ys) (omega arith) hy
IsConsecutive-append n (x ∷ xs) ys hx hy = (
  hx.0,
  IsConsecutive-append (suc n) xs ys hx.1 (subst (λ k. IsConsecutive k ys) (omega arith) hy),
)

pub IsConsecutive-take :
    (k n : ℕ) (xs : List LogEntry) → IsConsecutive n xs → IsConsecutive n (take k xs)
IsConsecutive-take zero n xs h = tt
IsConsecutive-take (suc k) n [] h = tt
IsConsecutive-take (suc k) n (x ∷ xs) h = (h.0, IsConsecutive-take k (suc n) xs h.1)

last_index-cons :
    (n : ℕ) (x : LogEntry) (xs : List LogEntry)
    → IsConsecutive n (x ∷ xs)
    → last_index (x ∷ xs) ≡ pos (suc n + length xs)
unfolding last_index
last_index-cons n x [] h = h.0 ∙ ap pos (omega arith)
last_index-cons n x (y ∷ xs) h = last_index-cons (suc n) y xs h.1 ∙ ap pos (omega arith)

-- A log that counts from 1 ends with its length.
pub last_index-length :
    (log : List LogEntry) → IsConsecutive 0 log → last_index log ≡ pos (length log)
unfolding last_index
last_index-length [] h = refl
last_index-length (x ∷ xs) h = last_index-cons 0 x xs h ∙ ap pos (omega arith)
