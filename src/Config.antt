-- ===== src/Config.antt =====
-- config.go, and configsEqual of shared_core.go. A time.Duration is a number of nanoseconds.
use featureflip_go.Base.{
  ℕ, ◌≡◌, refl, sym, ap, Bool, true, false, ◌&&◌, List, [], ◌++◌, Option, Text, codes, text_eq,
  text_eq_sound, arith, ◌==◌, not,
}
use featureflip_go.Base.Int.{ℤ, pos, negsuc}

-- An inspector is known by a number, `none` a nil one.
pub record Config : Type 0 where
  pub base_url : Text
  pub streaming : Bool
  pub poll_interval : ℤ
  pub flush_interval : ℤ
  pub flush_batch_size : ℤ
  pub init_timeout : ℤ
  pub connect_timeout : ℤ
  pub read_timeout : ℤ
  pub inspectors : List (Option ℕ)
  pub wrapper_name : Text
  pub wrapper_version : Text

abbrev pub default_config : Config
default_config = record {
  base_url = codes "https://eval.featureflip.io";
  streaming = true;
  poll_interval = pos 30000000000;
  flush_interval = pos 30000000000;
  flush_batch_size = pos 100;
  init_timeout = pos 10000000000;
  connect_timeout = pos 5000000000;
  read_timeout = pos 10000000000;
  inspectors = [];
  wrapper_name = [];
  wrapper_version = [];
}

-- The options, by their functions' names without With.
pub data Setting : Type 0 where
  base_url : Text → Setting
  streaming : Bool → Setting
  poll_interval flush_interval flush_batch_size init_timeout connect_timeout read_timeout :
      ℤ → Setting
  inspectors : List (Option ℕ) → Setting
  wrapper : Text → Text → Setting

unfoldable pub apply_option : Setting → Config → Config
apply_option (base_url url) c = record c { base_url = url }
apply_option (streaming enabled) c = record c { streaming = enabled }
apply_option (poll_interval d) c = record c { poll_interval = d }
apply_option (flush_interval d) c = record c { flush_interval = d }
apply_option (flush_batch_size n) c = record c { flush_batch_size = n }
apply_option (init_timeout d) c = record c { init_timeout = d }
apply_option (connect_timeout d) c = record c { connect_timeout = d }
apply_option (read_timeout d) c = record c { read_timeout = d }
apply_option (inspectors more) c = record c { inspectors = c.inspectors ++ more }
apply_option (wrapper name version) c = record c { wrapper_name = name; wrapper_version = version }

number_eq : ℤ → ℤ → Bool
number_eq (pos a) (pos b) = a == b
number_eq (negsuc a) (negsuc b) = a == b
number_eq (pos a) (negsuc b) = false
number_eq (negsuc a) (pos b) = false

switch_eq : Bool → Bool → Bool
switch_eq true b = b
switch_eq false b = not b

unfoldable pub configs_equal : Config → Config → Bool
unfolding number_eq switch_eq
configs_equal a b =
    text_eq a.base_url b.base_url
    && (switch_eq a.streaming b.streaming
        && (number_eq a.poll_interval b.poll_interval
            && (number_eq a.flush_interval b.flush_interval
                && (number_eq a.flush_batch_size b.flush_batch_size
                    && (number_eq a.init_timeout b.init_timeout
                        && (number_eq a.connect_timeout b.connect_timeout
                            && number_eq a.read_timeout b.read_timeout))))))

number_eq_sound : (a b : ℤ) → number_eq a b ≡ true → a ≡ b
unfolding number_eq
number_eq_sound (pos a) (pos b) h = ap pos (ground arith)
number_eq_sound (negsuc a) (negsuc b) h = ap negsuc (ground arith)
number_eq_sound (pos a) (negsuc b) h = cc
number_eq_sound (negsuc a) (pos b) h = cc

bool_eq_sound : (a b : Bool) → switch_eq a b ≡ true → a ≡ b
unfolding switch_eq
bool_eq_sound true b h = sym h
bool_eq_sound false b h = ground arith

-- Options that configsEqual takes for equal differ in the inspectors and the wrapper alone.
pub configs_equal_sound :
    (a b : Config)
    → configs_equal a b ≡ true
    → record a {
      inspectors = b.inspectors;
      wrapper_name = b.wrapper_name;
      wrapper_version = b.wrapper_version;
    }
      ≡ b
unfolding configs_equal
configs_equal_sound a b h =
    let url = text_eq_sound a.base_url b.base_url (ground arith) in
    let stream = bool_eq_sound a.streaming b.streaming (ground arith) in
    let p = number_eq_sound a.poll_interval b.poll_interval (ground arith) in
    let f = number_eq_sound a.flush_interval b.flush_interval (ground arith) in
    let n = number_eq_sound a.flush_batch_size b.flush_batch_size (ground arith) in
    let i = number_eq_sound a.init_timeout b.init_timeout (ground arith) in
    let c = number_eq_sound a.connect_timeout b.connect_timeout (ground arith) in
    let r = number_eq_sound a.read_timeout b.read_timeout (ground arith) in
    rw (url, stream, p, f, n, i, c, r) refl
