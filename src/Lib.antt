-- ===== src/Lib.antt =====
-- The controller bus: directives that say what is wanted, the controllers that resolve them, and the
-- configs that say which controllers run.
--
-- How the parts interact. A client adds a directive to the directive controller and holds a
-- reference to its instance. The controller asks every handler for resolvers and attaches them to
-- the instance; a resolver adds values, which the references are shown through the instance's
-- callback queue. The config set controller keeps a running controller for each key, as long as
-- somebody refers to it, and follows the directive that loads the controller. Factories of
-- controllers are found by config id, the newest version first.
--
-- The files.
--   Common: names, Boolean tests, lists, association lists. Common.Exec: stateful code as functions
--     from a state to an optional result, with rules for what a run keeps and whether it ends.
--   Instance: directive/controller/instance.go with resolver.go, resolver-handler.go, reference.go,
--     value.go and callback.go. Its state is the record `Instance`; every Go method is a function of
--     the same name in snake case (addValueLocked is add_value_locked, AddValue is add_value). Its
--     children: State (the records), Callbacks (the queue), Notify (idle state and snapshots),
--     Capacity (the cap, starting and stopping resolvers), Values, Lifecycle (references and
--     disposal), Handlers (resolverHandler), Api (callbacks of clients, Close); and the proofs in
--     Invariant, Halting, Disposal and Runs.
--   Controller: directive/controller/controller.go and handler.go, over a store of instances.
--   Bus: bus/inmem, over an interface `Registry` of which the directive controller is an instance.
--   Version: controller/version.go. StaticResolver: controller/resolver/static/resolver.go.
--   UniqueResolver: directive/unique-list-resolver.go and directive/unique-map-resolver.go, which have
--     the same bodies.
--   ConfigSet: controller/configset/configset.go and the merges of
--     controller/configset/proto/configset.go. ConfigMessage: the rest of that file and
--     controller/configset/proto/controller-config.go; the finder and the encodings of config types are
--     the record `ConfigTypes`, the JSON reader `JsonReader`, and the parser and base64 are parameters.
--   ConfigController: controller/configset/controller (controller.go, running-ctrl.go,
--     running-ctrl-ref.go, running-ctrl-state.go); its Loop has the two Execute functions,
--     and its SetResolvers the resolvers of apply-config-set.go and lookup-config-set.go.
--   Clients: the clients of package bus, each a state machine over the calls of its reference handler.
--     OneOff: ExecOneOffWithFilter (bus/oneoff.go). Collect and CollectWatch:
--     ExecCollectValuesWithFilter and ExecCollectValuesWatchWithFilter (bus/multi.go). Watch:
--     ExecOneOffWatchCb and ExecWatchEffect, Select: ExecOneOffWatchSelectCb (bus/watch.go). Relay: the
--     handlers of bus/transform.go and bus/passthru.go.
--   Loader: Resolve of controller/loader/loader-resolve.go, one round of its loop for an `Attempt`.
--   Execution: ExecuteController of controller/exec/exec.go; in Request and Resolving, Execute of
--     controller/exec/exec-request.go, and the reading of YAML sets in controller/configset/json.
--   Resolvers: directive/watchable-resolver.go and directive/transform-resolver.go, over the value
--     handler of UniqueResolver.
--
-- How the code is read.
--   * Pointers, texts that are only compared, contexts, channels and errors are numbers. An object
--     that is shared lives in a store, a function from pointers, so that aliases see each other's
--     writes; the atomic flags that are read without the lock have stores of their own.
--   * The mutex makes a method one step. Where an instance gives the lock up to call callbacks, the
--     parameter `Outside.invoke` says what they and other goroutines do to the instance meanwhile;
--     theorems hold for every such behaviour that keeps the invariant, or that is quiet: it returns,
--     queues nothing and attaches no resolver. A nil callback's panic is recovered, as in the code.
--   * `none` as the result of a run means that the fuel ran out. The fuel is the number of rounds of
--     the callback queue (`Outside.fuel`) and, in the loops over resolvers, their number and that
--     again; one round is enough for quiet callbacks, as the proofs in Instance.Halting show. A run
--     of the invariant's theorem may be of any length, with any fuel.
--   * A uint32 counter wraps: the value and directive ids are kept below 2 ^ 32. MaxValueCount is not
--     negative. The invariant's theorem asks that the value counter does not wrap in the run.
--   * A loop over a slice visits what is listed when it begins; AddDirective's, which removes
--     entries in place by their index, sees the entries move up (`closed_up`) and panics at an index
--     past the end; changes that callbacks make to the list meanwhile are not seen by the loop.
--   * A resolver gets its pointer when it is attached. An operation on an instance sees and changes
--     its own state, the controller's list of directives, its broadcasts and the handlers' flags.
--   * A handler's HandleDirective, IsEquivalent, Superceeds and GetValueOptions are the record
--     `Directives`; Validate, GetRev and EqualsConfig of a config are parameters.
--   * The table of a value handler is a hypothesis (`IsTable`): an accepted value gets a free id.
--   * A client's variables are the fields of its state; a callback of its handler, a call of its idle
--     callback and a look of its waiting loop are events, in any order, as each holds the lock that
--     guards the variables. What an instance sends is `IsFresh`: no value under an id that is in use.
--   * slices.SortFunc is a parameter, and insertion sort, as it is for up to twelve elements, where the
--     theorem depends on it. A factory, a controller's execution, the backoff and the context are what
--     an `Attempt` says of them. A conversion of a value to the client's type is the test `is_t`.
--   * The JSON form of a message is the list of its fields; a config in braces is text that is written
--     raw, as the parser of the code does not look into it, and what is read of it is a parameter,
--     which gives a text back that is one JSON object. Neither configs nor messages in a map are nil.
--   * Execute of a request receives its values in any order from its channels. The conversion of YAML
--     to messages is a parameter, with a config's JSON as its data.
--   * A Go map is an association list; where the order of a loop over a map is not specified, the
--     list gives it. Go strings are lists of bytes where they are parsed.
--
-- Not modelled: logging, timestamps, identifiers for debugging, generated code, the plugin compiler and
-- loader, the command line, the YAML copy, the typed wrappers of the bus's clients and the effects
-- over transformed values, and, so far, the writing of sets in JSON and YAML, the directives of package
-- loader, and the other helpers of package directive.
pub mod Common
pub mod Instance
pub mod Controller
pub mod Bus
pub mod Version
pub mod StaticResolver
pub mod UniqueResolver
pub mod ConfigSet
pub mod ConfigController
pub mod Clients
pub mod Loader
pub mod ConfigMessage
pub mod Execution
pub mod Resolvers
