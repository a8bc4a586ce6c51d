-- ===== src/Instance/State.antt =====
-- The objects of directive/controller: directiveInstance (instance.go), resolver (resolver.go),
-- value and valueRemoveCallback (value.go), dirRef (reference.go), callback (callback.go), and the
-- ValueOptions of directive/directive.go. Pointers are numbers: resolvers live in the store
-- `resolver_at`, and the atomic `released` and `rel` flags, which are read without the lock and
-- after an object has left its list, in stores of their own.
use controllerbus.Common.{ℕ, Bool, Option, List}

pub record ValueOptions : Type 0 where
  pub max_value_count : ℕ
  pub max_value_hard_cap : Bool
  pub unref_dispose_dur : ℕ
  pub unref_dispose_empty_immediate : Bool

-- A registered function that can be released; `none` is a nil function.
pub record Callback : Type 0 where
  pub cb_id : ℕ
  pub cb : Option ℕ

pub record ValueRemoveCallback : Type 0 where
  pub vrc_id : ℕ
  pub vrc_cb : Option ℕ

pub record Value : Type 0 where
  pub value_id : ℕ
  pub val : ℕ
  pub remove_callback_ctr : ℕ
  pub remove_callbacks : List ValueRemoveCallback

-- What a handler or a state callback is shown of a value.
pub record AttachedValue : Type 0 where
  pub attached_id : ℕ
  pub attached_val : ℕ

pub record DirRef : Type 0 where
  pub ref_id : ℕ
  pub weak : Bool
  pub ref_handler : Option ℕ

pub record Resolver : Type 0 where
  pub hnd : ℕ
  pub res : ℕ
  pub err : Option ℕ
  pub ctx : Option ℕ
  pub exited_ch : Option ℕ
  pub res_rels : List Callback
  pub vals : List Value
  pub res_idle : Bool
  pub exited : Bool
  pub stopped : Bool

pub record Snapshot : Type 0 where
  pub snap_idle : Bool
  pub snap_errs : List ℕ
  pub snap_vals : List AttachedValue

-- A queued callback. The closures that the code queues are told apart by what they call.
pub data CallbackEvent : Type 0 where
  call_func : ℕ → CallbackEvent
  handle_value_added : ℕ → AttachedValue → CallbackEvent
  handle_instance_disposed : ℕ → CallbackEvent
  call_idle : Option ℕ → Bool → List ℕ → CallbackEvent
  call_state : Option ℕ → Snapshot → CallbackEvent
  removed_value : DirRef → AttachedValue → CallbackEvent

-- A goroutine that was started to run `executeResolver`.
pub record Execution : Type 0 where
  pub exec_resolver : ℕ
  pub exec_ctx : ℕ
  pub exec_exited_ch : ℕ
  pub exec_wait_ch : Option ℕ

pub record Instance : Type 0 where
  pub id : ℕ
  pub value_opts : ValueOptions
  pub released : Bool
  pub ctx_done : Bool
  pub parent_done : Bool
  pub ready : Bool
  pub destroy_timer : Option ℕ
  pub rels : List Callback
  pub idles : List Callback
  pub state_changed : List Callback
  pub state_changed_snapshot : Option Snapshot
  pub state_changed_skip : Bool
  pub calling_ref_cbs : Bool
  pub ref_cbs : List CallbackEvent
  pub refs : List DirRef
  pub resolvers : List ℕ
  pub val_ctr : ℕ
  pub idle : Bool
  pub full : Bool
  pub resolver_at : ℕ → Resolver
  pub ref_released : ℕ → Bool
  pub cb_released : ℕ → Bool
  pub handler_rel : ℕ → Bool
  pub ctx_canceled : ℕ → Bool
  pub next_resolver : ℕ
  pub next_pointer : ℕ
  pub executions : List Execution
  pub dir : List ℕ
  pub broadcasts : ℕ
