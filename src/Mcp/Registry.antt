-- ===== src/Mcp/Registry.antt =====
-- crates/tagents-core/src/mcp/server.rs: `Registry`, the calls in flight. Each function is what one thread does
-- while it holds the lock once, or one `stop`; the threads of the calls and the reader take such steps in any
-- order. What a function of the source does behind its lock is a step of its own: the stops of `cancel` and
-- `stop_all`, and the `finish` of a `settle` that is not to be answered.
use tagents.Prelude.{
  ℕ, ◌+◌, ◌≡◌, refl, Bool, true, false, not, ◌&&◌, ◌||◌, Option, none, some, List, [], ◌∷◌, ◌++◌,
  ◌==◌, if◌then◌else◌,
}
use tagents.Int.{ℤ, pos, negsuc}
use tagents.Text.{Text, is_empty, text_eq}
pub mod Maps
pub mod Settled
pub mod Stops
pub mod Closing

-- `Id` of mcp/rpc.rs
pub data RequestId : Type 0 where
  num : ℤ → RequestId
  str : Text → RequestId

abbrev pub id_eq : RequestId → RequestId → Bool
id_eq (num (pos m)) (num (pos n)) = m == n
id_eq (num (negsuc m)) (num (negsuc n)) = m == n
id_eq (str s) (str t) = text_eq s t
id_eq _ _ = false

-- `Id::is_falsy`
abbrev pub is_falsy : RequestId → Bool
is_falsy (num (pos n)) = n == 0
is_falsy (num (negsuc n)) = false
is_falsy (str s) = is_empty s

-- `Entry`. Each call has a `Stop` of its own, which has the call's serial as its name.
pub record Entry : Type 0 where
  pub id : RequestId
  pub stop : ℕ
  pub cancelled : Bool

-- `HashMap<u64, Entry>` and `HashMap<RequestId, u64>`, each with a key once.
abbrev pub Calls : Type 0
Calls = List (ℕ × Entry)

abbrev pub ById : Type 0
ById = List (RequestId × ℕ)

unfoldable pub call_of : ℕ → Calls → Option Entry
call_of s [] = none
call_of s ((t, e) ∷ cs) = let rest = call_of s cs in if t == s then some e else rest

unfoldable pub without : ℕ → Calls → Calls
without s [] = []
without s ((t, e) ∷ cs) = let rest = without s cs in if t == s then rest else (t, e) ∷ rest

unfoldable pub change_call : ℕ → (Entry → Entry) → Calls → Calls
change_call s f [] = []
change_call s f ((t, e) ∷ cs) =
    let rest = change_call s f cs in (t, if t == s then f e else e) ∷ rest

unfoldable pub serial_of : RequestId → ById → Option ℕ
serial_of i [] = none
serial_of i ((j, s) ∷ m) = let rest = serial_of i m in if id_eq j i then some s else rest

unfoldable pub release : RequestId → ById → ById
release i [] = []
release i ((j, s) ∷ m) = let rest = release i m in if id_eq j i then rest else (j, s) ∷ rest

-- `RegistryState`, and the stops, which the calls' threads share with it: those that are `set`, and those that a
-- `cancel` or a `stop_all` has `taken` from their entries and is about to set.
pub record RegistryState : Type 0 where
  pub next : ℕ
  pub calls : Calls
  pub by_id : ById
  pub closing : Bool
  pub set : List ℕ
  pub taken : List ℕ

-- `Registry::default`
abbrev pub empty : RegistryState
empty = record { next = 0; calls = []; by_id = []; closing = false; set = []; taken = [] }

-- `begin`; the serial is `next`.
unfoldable pub begin : RequestId → RegistryState → RegistryState
begin id st = record st {
  next = st.next + 1;
  calls =
      (st.next, record { id = id; stop = st.next; cancelled = false }) ∷ without st.next st.calls;
  by_id = (id, st.next) ∷ release id st.by_id;
  set = if st.closing then st.next ∷ st.set else st.set;
}

abbrev pub cancel_entry : Entry → Entry
cancel_entry e = record e { cancelled = true }

abbrev pub cancel_call : ℕ → Option Entry → RegistryState → RegistryState
cancel_call s none st = st
cancel_call s (some e) st = record st {
  calls = change_call s cancel_entry st.calls;
  taken = e.stop ∷ st.taken;
}

abbrev pub cancel_serial : Option ℕ → RegistryState → RegistryState
cancel_serial none st = st
cancel_serial (some s) st = cancel_call s (call_of s st.calls) st

-- `cancel`, up to the `stop`.
unfoldable pub cancel : RequestId → RegistryState → RegistryState
cancel id st = if is_falsy id then st else cancel_serial (serial_of id st.by_id) st

abbrev pub is_serial : ℕ → Option ℕ → Bool
is_serial s none = false
is_serial s (some t) = t == s

-- `finish`
unfoldable pub finish : ℕ → RegistryState → RegistryState
finish s st = record st { calls = without s st.calls }

abbrev pub released : ℕ → RequestId → RegistryState → RegistryState
released s id st = record st {
  by_id = if is_serial s (serial_of id st.by_id) then release id st.by_id else st.by_id;
}

abbrev pub settle_call : ℕ → RegistryState → Option Entry → Bool × RegistryState
settle_call s st none = (false, st)
settle_call s st (some e) = (not e.cancelled, released s e.id st)

-- `settle`, with whether the request is to be answered, up to the `finish` of one that is not.
unfoldable pub settle : ℕ → RegistryState → Bool × RegistryState
settle s st = settle_call s st (call_of s st.calls)

-- `.values().map(|entry| entry.stop.clone())`
unfoldable pub stops_of : Calls → List ℕ
stops_of [] = []
stops_of ((t, e) ∷ cs) = e.stop ∷ stops_of cs

-- `stop_all`, up to the stops.
unfoldable pub stop_all : RegistryState → RegistryState
stop_all st = record st { closing = true; taken = stops_of st.calls ++ st.taken }

unfoldable pub is_in : ℕ → List ℕ → Bool
is_in n [] = false
is_in n (m ∷ ms) = m == n || is_in n ms

unfoldable pub leave_out : ℕ → List ℕ → List ℕ
leave_out n [] = []
leave_out n (m ∷ ms) = let rest = leave_out n ms in if m == n then ms else m ∷ rest

-- `stop.stop()` in `cancel` and in `stop_all`: one of the stops that were taken is set.
unfoldable pub stop : ℕ → RegistryState → RegistryState
stop n st =
    if is_in n st.taken then record st { set = n ∷ st.set; taken = leave_out n st.taken } else st

-- What the reader and the calls' threads do, in the order in which they do it.
pub data Action : Type 0 where
  begins cancels : RequestId → Action
  settles finishes stops : ℕ → Action
  stops_all : Action

unfoldable pub apply : Action → RegistryState → RegistryState
apply (begins id) st = begin id st
apply (cancels id) st = cancel id st
apply (settles s) st = (settle s st).1
apply (finishes s) st = finish s st
apply (stops n) st = stop n st
apply stops_all st = stop_all st

unfoldable pub apply_all : List Action → RegistryState → RegistryState
apply_all [] st = st
apply_all (a ∷ as_list) st = apply_all as_list (apply a st)
