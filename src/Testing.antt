-- ===== src/Testing.antt =====
-- testing.go: a client on fixed values. A map of overrides is ranged over in the order of its entries.
pub mod Overrides
mod Tests
use featureflip_go.Base.{ℕ, Bool, true, false, List, [], ◌∷◌, Option, none, some, Text, codes}
use featureflip_go.Base.Dict.{Dict}
use featureflip_go.Base.Int.{ℤ, pos}
use featureflip_go.Models.{Value, Flag}
use featureflip_go.Platform.{Platform}
use featureflip_go.Store.{Store, new_store, set_all}
use featureflip_go.Events.{default_max_event_queue_size, new_event_processor_with_bound}
use featureflip_go.Client.{Core}

unfoldable pub infer_type : Value → Text
infer_type (Value.bool b) = codes "Boolean"
infer_type (Value.text s) = codes "String"
infer_type (Value.int z) = codes "Number"
infer_type (Value.uint n) = codes "Number"
infer_type (Value.float32 x) = codes "Number"
infer_type (Value.float64 x) = codes "Number"
infer_type _ = codes "Json"

abbrev pub override_flag : Text → Value → Text → Flag
override_flag key val raw = record {
  key = key;
  version = pos 1;
  flag_type = infer_type val;
  enabled = true;
  variations = record { key = codes "value"; value = raw } ∷ [];
  rules = [];
  fallthrough = record {
    serve_type = codes "Fixed";
    variation = codes "value";
    bucket_by = [];
    salt = [];
    variations = [];
  };
  off_variation = codes "value";
  prerequisites = [];
}

abbrev pub add_override : Text → Value → Option Text → List Flag → List Flag
add_override key val none flags = flags
add_override key val (some raw) flags = override_flag key val raw ∷ flags

-- `marshal` is json.Marshal; a value that it refuses gives no flag.
unfoldable pub override_flags : (Value → Option Text) → Dict Value → List Flag
override_flags marshal [] = []
override_flags marshal ((key, val) ∷ overrides) =
    add_override key val (marshal val) (override_flags marshal overrides)

unfoldable pub for_testing : Platform → (Value → Option Text) → Dict Value → Core
for_testing go marshal overrides = record {
  store = (set_all go (override_flags marshal overrides) [] new_store).0;
  ep = new_event_processor_with_bound false 100 30000000000 (pos default_max_event_queue_size);
  inspectors = [];
  is_shut_down = false;
  initialized = true;
  seen = [];
}
