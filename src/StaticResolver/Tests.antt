-- ===== src/StaticResolver/Tests.antt =====
-- Concrete factories at which the theorem on the static resolver applies.
use controllerbus.Common.{ℕ, List, [], ◌∷◌, lookup, ◌≡◌}
use controllerbus.StaticResolver.{Factory, new_resolver, get_factory_matching_config, get_factories}
use controllerbus.StaticResolver.Newest.{IsNewest, new_resolver-IsNewest}
use controllerbus.StaticResolver.Listing.{IsSorted, listed_for, get_factories-lists}

abbrev factory : ℕ → ℕ → ℕ → Factory
factory k id m = record {
  factory_id = k;
  config_id = id;
  version = record { value = []; major = m; minor = 0; patch = 0 };
}

abbrev three_factories : List Factory
three_factories = factory 1 4 1 ∷ factory 2 4 3 ∷ factory 3 4 2 ∷ factory 4 5 1 ∷ []

new_resolver-IsNewest_example :
    IsNewest 4 three_factories (get_factory_matching_config 4 (new_resolver three_factories))
new_resolver-IsNewest_example = new_resolver-IsNewest three_factories 4

get_factories-lists_example :
    IsSorted (get_factories (new_resolver three_factories))
    × ((id : ℕ)
        → listed_for id (get_factories (new_resolver three_factories))
          ≡ lookup id (new_resolver three_factories).factories)
get_factories-lists_example = get_factories-lists three_factories
