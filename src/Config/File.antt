-- ===== src/Config/File.antt =====
-- What a configuration file gives back (ddbr-server/configs/config.go).
use ddbr.Common.{◌≡◌, ◌≢◌, refl, ap, ◌∙◌, sym, Option, none, some, arith, []}
use ddbr.Common.Eq.{Str, bytes, str_Eq, str_eq_iff, int_Eq}
use ddbr.Common.Int.{ℤ, pos}
use ddbr.Common.Result.{ok}
use ddbr.Config.{
  Config, Global, UnmarshalConfig, MarshalConfig, saved, with_defaults, text_or, number_or, id_or,
  use_parsed, load_config, save_config,
}

-- No value is left out.
pub record IsComplete (c : Config) : Type 0 where
  pub has_id : (id : ℤ) × (c.node_id ≡ some id)
  pub has_data_dir : c.data_dir ≢ []
  pub has_log_level : c.log_level ≢ []
  pub has_log_dir : c.log_dir ≢ []
  pub has_timeout : c.election_timeout ≢ pos 0
  pub has_period : c.heartbeat_period ≢ pos 0
  pub has_count : c.snapshot_count ≢ pos 0

text_or-ne : (d s : Str) → d ≢ [] → text_or d s ≢ []
text_or-ne d s n = ground (arith, str_eq_iff s [])

text_or-given : (d s : Str) → s ≢ [] → text_or d s ≡ s
text_or-given d s n = ground (arith, str_eq_iff s [])

number_or-ne : (d n : ℤ) → d ≢ pos 0 → number_or d n ≢ pos 0
number_or-ne d n h = ground arith

number_or-given : (d n : ℤ) → n ≢ pos 0 → number_or d n ≡ n
number_or-given d n h = ground arith

id_or-some : (fresh : ℤ) (i : Option ℤ) → (id : ℤ) × (id_or fresh i ≡ some id)
id_or-some fresh none = (fresh, refl)
id_or-some fresh (some id) = (id, refl)

with_defaults-IsComplete : (fresh : ℤ) (c : Config) → IsComplete (with_defaults fresh c)
unfolding with_defaults
with_defaults-IsComplete fresh c = record {
  has_id = id_or-some fresh c.node_id;
  has_data_dir = text_or-ne (bytes "data") c.data_dir (ground arith);
  has_log_level = text_or-ne (bytes "info") c.log_level (ground arith);
  has_log_dir = text_or-ne (bytes "logs") c.log_dir (ground arith);
  has_timeout = number_or-ne (pos 1000) c.election_timeout (ground arith);
  has_period = number_or-ne (pos 100) c.heartbeat_period (ground arith);
  has_count = number_or-ne (pos 10000) c.snapshot_count (ground arith);
}

id_or-given : (fresh : ℤ) (i : Option ℤ) (id : ℤ) → i ≡ some id → id_or fresh i ≡ i
id_or-given fresh i id e = ap (id_or fresh) e ∙ sym e

with_defaults-given : (fresh : ℤ) (c : Config) → IsComplete c → with_defaults fresh c ≡ c
unfolding with_defaults
with_defaults-given fresh c k = λ i. record c {
  node_id = id_or-given fresh c.node_id k.has_id.0 k.has_id.1 i;
  data_dir = text_or-given (bytes "data") c.data_dir k.has_data_dir i;
  log_level = text_or-given (bytes "info") c.log_level k.has_log_level i;
  log_dir = text_or-given (bytes "logs") c.log_dir k.has_log_dir i;
  election_timeout = number_or-given (pos 1000) c.election_timeout k.has_timeout i;
  heartbeat_period = number_or-given (pos 100) c.heartbeat_period k.has_period i;
  snapshot_count = number_or-given (pos 10000) c.snapshot_count k.has_count i;
}

-- The content of the file after SaveConfig of a loaded configuration `c`.
abbrev pub saved_file : MarshalConfig → Config → Option Str → Option Str
saved_file m c file = (save_config m saved (some c) file).1

-- A configuration that LoadConfig made, saved to a file and loaded from it again, with another
-- random identity at hand and whatever the file and the configuration were before, is the same
-- configuration, where json.Unmarshal reads back its text from json.MarshalIndent.
pub load_config-save_config :
    (u : UnmarshalConfig) (m : MarshalConfig) (fresh fresh2 : ℤ) (c : Config) (file : Option Str)
    (g : Global)
    → u (m (with_defaults fresh c)) ≡ ok (with_defaults fresh c)
    → load_config u fresh2 (saved_file m (with_defaults fresh c) file) g
      ≡ (ok tt, some (with_defaults fresh c))
unfolding load_config save_config
load_config-save_config u m fresh fresh2 c file g reads =
    ap (λ r. use_parsed fresh2 r g) reads
    ∙ ap (λ x. (ok tt, some x))
        (with_defaults-given fresh2 (with_defaults fresh c) (with_defaults-IsComplete fresh c))
