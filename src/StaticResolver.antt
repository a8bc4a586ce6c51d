-- ===== src/StaticResolver.antt =====
-- The static factory resolver: controller/resolver/static/resolver.go. The text of a config id is a
-- number, and the map of factories the list of its entries.
pub mod Newest
pub mod Listing
mod Tests
use controllerbus.Common.{
  ℕ, suc, Bool, true, false, Option, none, some, List, [], ◌∷◌, ◌==◌, if◌then◌else◌, lookup, insert,
  leb, map,
}
use controllerbus.Version.{Version, gte}

pub record Factory : Type 0 where
  pub factory_id : ℕ
  pub config_id : ℕ
  pub version : Version

pub record StaticResolver : Type 0 where
  pub factories : List (ℕ × Factory)
  pub broadcasts : ℕ

unfoldable pub put_factory : Factory → StaticResolver → StaticResolver
put_factory f r = record {
  factories = insert f.config_id f r.factories;
  broadcasts = suc r.broadcasts;
}

unfoldable pub add_factory : Factory → StaticResolver → StaticResolver
add_factory f r = elim (lookup f.config_id r.factories) [
  | none ↦ put_factory f r
  | some existing ↦ if gte existing.version f.version then r else put_factory f r
]

unfoldable pub add_factories : List Factory → StaticResolver → StaticResolver
add_factories [] r = r
add_factories (f ∷ fs) r = add_factories fs (add_factory f r)

unfoldable pub new_resolver : List Factory → StaticResolver
new_resolver fs = add_factories fs (record { factories = []; broadcasts = 0 })

-- The first factory in the map whose config id is the one asked for; the constructor is made of it.
unfoldable pub config_ctor_by_id : ℕ → List (ℕ × Factory) → Option Factory
config_ctor_by_id id [] = none
config_ctor_by_id id ((k, f) ∷ m) = if f.config_id == id then some f else config_ctor_by_id id m

unfoldable pub get_config_ctor_by_id : ℕ → StaticResolver → Option Factory
get_config_ctor_by_id id r = config_ctor_by_id id r.factories

unfoldable pub get_factory_matching_config : ℕ → StaticResolver → Option Factory
get_factory_matching_config id r = lookup id r.factories

-- The factory, and whether a channel to wait on comes with it.
unfoldable pub get_factory_matching_config_watch : ℕ → StaticResolver → Option Factory × Bool
get_factory_matching_config_watch id r = elim (lookup id r.factories) [
  | none ↦ (none, true)
  | some f ↦ (some f, false)
]

-- slices.SortFunc by the config ids
unfoldable pub insert_sorted : Factory → List Factory → List Factory
insert_sorted f [] = f ∷ []
insert_sorted f (g ∷ gs) =
    if leb f.config_id g.config_id then f ∷ g ∷ gs else g ∷ insert_sorted f gs

unfoldable pub sort_factories : List Factory → List Factory
unfolding insert_sorted
sort_factories [] = []
sort_factories (f ∷ fs) = insert_sorted f (sort_factories fs)

unfoldable pub get_factories : StaticResolver → List Factory
unfolding sort_factories
get_factories r = sort_factories (map (λ (entry : ℕ × Factory). entry.1) r.factories)
