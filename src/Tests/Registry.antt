-- ===== src/Tests/Registry.antt =====
-- crates/tagents-core/src/mcp/server.rs, `Registry`: each theorem at one order of the steps.
use tagents.Prelude.{◌≡◌, refl, true, false, not, ◌||◌, some, List, [], ◌∷◌, ◌==◌}
use tagents.Int.{pos}
use tagents.Mcp.Registry.{
  RequestId, num, str, Entry, empty, call_of, without, release, begin, settle, stops_of, stop_all,
  is_in, stop, Action, begins, cancels, settles, stops, stops_all, apply, apply_all,
}
use tagents.Mcp.Registry.Settled.{was_cancelled, settle-begin}
use tagents.Mcp.Registry.Closing.{is_stopping, apply_all-is_stopping}

-- The id 1 is sent twice, the first call is settled, and then the id is cancelled.
abbrev one : RequestId
one = num (pos 1)

settle-begin_example :
    let st = apply_all (begins one ∷ []) empty in
    (settle st.next (apply_all (settles 0 ∷ cancels one ∷ []) (begin one st))).0
    ≡ not (was_cancelled one true (settles 0 ∷ cancels one ∷ []))
settle-begin_example = settle-begin (begins one ∷ []) (settles 0 ∷ cancels one ∷ []) one (running)
  where
    running : ((0 == (apply_all (begins one ∷ []) empty).next) ≡ false) × Unit {0}
    running = unfold apply_all apply begin in (refl, tt)

-- A call is in the registry when the server begins to end, and another begins before its stop is set.
abbrev ending : List Action
ending = begins (str []) ∷ stops_all ∷ begins one ∷ []

abbrev early : Entry
early = record { id = str []; stop = 0; cancelled = false }

abbrev late : Entry
late = record { id = one; stop = 1; cancelled = false }

apply_all-is_stopping_example :
    is_stopping early.stop (apply_all ending empty)
    ≡ (early.cancelled || (apply_all ending empty).closing)
apply_all-is_stopping_example = apply_all-is_stopping ending 0 early found
  where
    found : call_of 0 (apply_all ending empty).calls ≡ some early
    found = unfold apply_all apply begin stop_all call_of without release in refl

-- Until then only the later call is stopped.
late_only : (apply_all ending empty).set ≡ 1 ∷ []
unfolding apply_all apply begin stop_all stops_of
late_only = refl

both : (apply_all (begins (str []) ∷ stops_all ∷ begins one ∷ stops 0 ∷ []) empty).set ≡ 0 ∷ 1 ∷ []
unfolding apply_all apply begin stop_all stops_of stop is_in
both = refl
