-- ===== src/Tests/HubTests.antt =====
-- The event hub over a few calls.
use speedtest_tracker.Base.{ℕ, List, [], ◌∷◌, All}
use speedtest_tracker.Sse.{Call, subscribes, closes, cancels, receives, publishes, new_hub, run}
use speedtest_tracker.Sse.Delivery.{IsSound, IsFaithful, published, run-IsSound, delivery_in_order}

abbrev calls : List (Call ℕ)
calls =
    subscribes
    ∷ publishes 1
    ∷ subscribes
    ∷ publishes 2
    ∷ receives 0
    ∷ cancels 0
    ∷ cancels 0
    ∷ publishes 3
    ∷ receives 1
    ∷ closes
    ∷ publishes 4
    ∷ subscribes
    ∷ []

run-IsSound_example : let h = run calls new_hub in All (IsSound h.closed) h.subs
run-IsSound_example = run-IsSound calls

delivery_in_order_example : All (IsFaithful (published calls)) (run calls new_hub).subs
delivery_in_order_example = delivery_in_order calls
