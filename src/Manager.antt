-- ===== src/Manager.antt =====
-- src/modules/manager/main.c: the registry of services and the methods of the manager's object.
-- Strings lie in memory, as in Library/Strings; the pieces that one call of `logsvc` prints are kept
-- as one line. The 100 bytes in which `registersvc` puts its message are not kept. `c_open`, which
-- sends a request to a service, is an argument. Without enough fuel for a string there is no result.
pub mod Open
mod Tests
use grapes.Prelude.{
  ℕ, zero, suc, ◌+◌, ◌-◌, ◌*◌, ◌^◌, Bool, true, false, not, ◌&&◌, ◌||◌, Option, none, some, List,
  [], ◌∷◌, ltb, ◌==◌, if◌then◌else◌,
}
use grapes.Prelude.Pointers.{update}
use grapes.Kernel.Segments.Shared.{minus}
use grapes.Library.Strings.{Memory, strchr, strcmp, strcpy}
use grapes.Library.Server.{Ret, mr_obj, mr_void, mr_err}

-- `struct service`
pub record Service : Type 0 where
  pub name : ℕ
  pub pid : ℕ
  pub obj : ℕ

-- what is logged: a string of a client, or one of the manager's messages
pub data Text : Type 0 where
  stored : ℕ → Text
  registered : ℕ → Text
  nothing_request : Text
  nothing_message : Text

pub record Line : Type 0 where
  pub service : Option ℕ
  pub level : ℕ
  pub text : Text

-- `services`, `loglevel`, memory and what was printed, the latest first
pub record Manager : Type 0 where
  pub services : List Service
  pub loglevel : ℕ
  pub memory : Memory
  pub printed : List Line

abbrev pub ll_notice : ℕ
ll_notice = 3

abbrev pub ll_debug : ℕ
ll_debug = 5

-- the loop of `logsvc`: the name of the service of a process
service_of : (pid : ℕ) → List Service → Option ℕ
service_of pid [] = none
service_of pid (s ∷ services) =
    let later = service_of pid services in if s.pid == pid then some s.name else later

-- `logsvc`; `level` is a 32-bit word, so a negative one is above every level
logsvc : (pid : ℕ) → Text → (level : ℕ) → Manager → Manager
unfolding service_of
logsvc pid log level s = if ltb s.loglevel level then s else record s {
  printed = (record { service = service_of pid s.services; level = level; text = log }) ∷ s.printed;
}

-- What `registersvc` does with the copy of the name that `strdup` has made at `name`.
abbrev enter_service : (pid name descriptor : ℕ) → Manager → Option (ℕ × Memory) → Option Manager
enter_service pid name descriptor s none = none
enter_service pid name descriptor s (some (_, m)) = some (
    logsvc 1 (registered name) ll_notice (record s {
      memory = m;
      services = (record { name = name; pid = pid; obj = descriptor }) ∷ s.services;
    }))

-- `registersvc`; `fresh` is where `malloc` has room for the name
registersvc : (fuel fresh : ℕ) → (pid name descriptor : ℕ) → Manager → Option Manager
unfolding logsvc
registersvc fuel fresh pid name descriptor s =
    enter_service pid fresh descriptor s (strcpy fuel fresh name s.memory)

-- the loop of `CHKSSTR`: whether the string at `p` ends within `size` bytes
has_end : (size p : ℕ) → Memory → Bool
has_end zero p m = false
has_end (suc size) p m = let rest = has_end size (p + 1) m in if m p == 0 then true else rest

-- `CHKSSTR`; for a size of 0 the end is not looked for
pub is_string : (p size : ℕ) → Memory → Bool
unfolding has_end
is_string p size m = not (p == 0) && (has_end size p m || (size == 0))

-- `strcmp(s->name, svc) == 0` of one service, and the loop of `handle_open` behind it
abbrev same_name : Option (ℕ × ℕ) → Service → Option (Option Service) → Option (Option Service)
same_name none s later = none
same_name (some (x, y)) s later = if x == y then some (some s) else later

-- the loop of `handle_open`: the first service of that name
pub find_service : (fuel svc : ℕ) → Memory → List Service → Option (Option Service)
find_service fuel svc m [] = some none
find_service fuel svc m (s ∷ services) =
    let later = find_service fuel svc m services in same_name (strcmp fuel s.name svc m) s later

module _ (c_open : (obj res : ℕ) → Manager → ℕ × Manager) where
  -- `handle_open` of a service that was found, for the whole name or for a resource behind `sep`
  abbrev opened : (sep : ℕ) → Service → Manager → Ret × Manager
  opened sep svc s =
      let t : Manager = record s { memory = update s.memory sep b':' } in
      let (r, u) = c_open svc.obj (sep + 1) t in
      if sep == 0
      then (mr_obj svc.obj, s)
      else if r == minus 1
      then (mr_err (minus 3), u)
      else (mr_obj r, u)

  abbrev after_search : (sep : ℕ) → Manager → Option (Option Service) → Option (Ret × Manager)
  after_search sep s none = none
  after_search sep s (some none) = some (mr_err (minus 2), s)
  after_search sep s (some (some svc)) = some (opened sep svc s)

  -- `if (sep != 0) *sep = '0';` and the search
  abbrev after_strchr : (fuel svc : ℕ) → Manager → Option ℕ → Option (Ret × Manager)
  after_strchr fuel svc s none = none
  after_strchr fuel svc s (some sep) =
      let t : Manager = if sep == 0 then s else record s { memory = update s.memory sep b'0' } in
      after_search sep t (find_service fuel svc t.memory t.services)

  -- `handle_open`, for the string of `size` bytes of shared memory at `svc`
  pub handle_open : (fuel svc size : ℕ) → Manager → Option (Ret × Manager)
  handle_open fuel svc size s =
      if not (is_string svc size s.memory)
      then some (mr_err (minus 1), s)
      else after_strchr fuel svc s (strchr fuel svc b':' s.memory)

-- `handle_nothing`
handle_nothing : (blocking : Bool) → Manager → Ret × Manager
unfolding logsvc
handle_nothing blocking s =
    (mr_void, logsvc 1 (if blocking then nothing_request else nothing_message) ll_debug s)

-- `handle_registersvc` of a process
handle_registersvc : (fuel fresh pid : ℕ) → (name size obj : ℕ) → Manager → Option (Ret × Manager)
unfolding registersvc is_string
handle_registersvc fuel fresh pid name size obj s =
    if not (is_string name size s.memory)
    then some (mr_err (minus 1), s)
    else if obj == 0
    then some (mr_err (minus 1), s)
    else elim (registersvc fuel fresh pid name obj s) [ none ↦ none | some t ↦ some (mr_void, t) ]

-- `handle_logsvc` of a process
handle_logsvc : (pid : ℕ) → (log size level : ℕ) → Manager → Ret × Manager
unfolding logsvc is_string
handle_logsvc pid log size level s =
    if not (is_string log size s.memory)
    then (mr_err (minus 1), s)
    else (mr_void, logsvc pid (stored log) level s)
