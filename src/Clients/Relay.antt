-- ===== src/Clients/Relay.antt =====
-- The reference handlers of bus/transform.go and bus/passthru.go, which hand the values of one directive
-- on to the resolver handler of another.
pub mod Disposing
use controllerbus.Common.{
  ℕ, suc, Bool, true, false, Option, none, some, List, [], ◌∷◌, if◌then◌else◌, lookup, insert,
}
use controllerbus.Instance.State.{AttachedValue}
use controllerbus.UniqueResolver.{ValueHandler}
use controllerbus.Clients.{ClientEvent, value_added, value_removed, instance_disposed}

-- `passthru` is the state of the resolver handler, and `dispose_calls` counts the calls of disposeCb.
pub record TransformHandler (S : Type 0) : Type 0 where
  pub id_mapping : List (ℕ × ℕ)
  pub passthru : S
  pub dispose_calls : ℕ

unfoldable pub new_transform_handler : {S : Type 0} → S → TransformHandler S
new_transform_handler s = record { id_mapping = []; passthru = s; dispose_calls = 0 }

-- Where there is no transformation, the value is `v.GetValue`, the method and not its result.
unfoldable pub transformed :
    (AttachedValue → ℕ) → Option (AttachedValue → Option ℕ) → AttachedValue → Option ℕ
transformed method_value none v = some (method_value v)
transformed method_value (some xfrm) v = xfrm v

module _ {S : Type 0} (hnd : ValueHandler S) where
  unfoldable pub hand_on : ℕ → Option ℕ → TransformHandler S → TransformHandler S
  hand_on vid none h = h
  hand_on vid (some val) h =
      let (id, s) = hnd.add val h.passthru in
      elim id [
        | none ↦ record h { passthru = s }
        | some i ↦ record h { passthru = s; id_mapping = insert vid i h.id_mapping }
      ]

  unfoldable pub take_back : Option ℕ → TransformHandler S → TransformHandler S
  take_back none h = h
  take_back (some i) h = record h { passthru = hnd.remove i h.passthru }

  unfoldable pub remove_all : List (ℕ × ℕ) → S → S
  remove_all [] s = s
  remove_all ((vid, i) ∷ entries) s = remove_all entries (hnd.remove i s)

-- `hnd` is none for a handler that is nil.
unfoldable pub transform_step :
    {S : Type 0}
    → Option (ValueHandler S)
    → (AttachedValue → Option ℕ)
    → Bool
    → ClientEvent
    → TransformHandler S
    → TransformHandler S
unfolding hand_on take_back remove_all
transform_step none value_of has_dispose (value_added v) h = h
transform_step none value_of has_dispose (value_removed v) h = h
transform_step none value_of has_dispose instance_disposed h =
    if has_dispose then record h { dispose_calls = suc h.dispose_calls } else h
transform_step (some hnd) value_of has_dispose (value_added v) h =
    hand_on hnd v.attached_id (value_of v) h
transform_step (some hnd) value_of has_dispose (value_removed v) h =
    take_back hnd (lookup v.attached_id h.id_mapping) h
transform_step (some hnd) value_of has_dispose instance_disposed h =
    let emptied = record h { passthru = remove_all hnd h.id_mapping h.passthru } in
    if has_dispose then record emptied { dispose_calls = suc h.dispose_calls } else emptied

-- PassThruHandler hands the values on as they are.
unfoldable pub pass_thru_value : AttachedValue → Option ℕ
pass_thru_value v = some v.attached_val
