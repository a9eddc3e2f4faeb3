-- ===== src/Sse/Delivery.antt =====
-- What the subscribers of internal/sse/hub.go receive, over any calls in any order.
use speedtest_tracker.Base.{
  ℕ, ◌+◌, ◌≤◌, ◌≡◌, refl, sym, Bool, true, not, List, [], ◌∷◌, ◌++◌, arith, inl, inr, bit, length,
  length-append, append-nil, append_assoc, All, Bool-cases,
}
use speedtest_tracker.Sse.{
  Subscriber, Hub, Call, subscribes, closes, cancels, receives, publishes, buffer_size, new_hub,
  subscriber, subscribe, leave, leave_all, cancel, shut, shut_all, close, offer, offer_all, publish,
  take_one, read_from, receive, step, run,
}

module _ {ℓ} {E : Type ℓ} where
  -- A channel stands in `subs` exactly while it is open, which a closed hub or a cancel ends, and
  -- it holds at most 64 events.
  pub record IsSound (over : Bool) (c : Subscriber E) : Type ℓ where
    pub joined : c.registered ≡ not c.closed
    pub fits : length c.buffer ≤ buffer_size
    pub left : c.canceled ≡ true → c.closed ≡ true
    pub hub_over : over ≡ true → c.closed ≡ true

  leave_all-IsSound :
      (id : ℕ) (over : Bool) (cs : List (Subscriber E))
      → All (IsSound over) cs
      → All (IsSound over) (leave_all id cs)
  unfolding leave_all leave
  leave_all-IsSound id over [] v = tt
  leave_all-IsSound id over (c ∷ cs) v = (ground arith, leave_all-IsSound id over cs v.1)

  shut_all-IsSound :
      (over : Bool) (cs : List (Subscriber E))
      → All (IsSound over) cs
      → All (IsSound true) (shut_all cs)
  unfolding shut_all shut
  shut_all-IsSound over [] v = tt
  shut_all-IsSound over (c ∷ cs) v = (ground arith, shut_all-IsSound over cs v.1)

  offer_all-IsSound :
      (e : E) (over : Bool) (cs : List (Subscriber E))
      → All (IsSound over) cs
      → All (IsSound over) (offer_all e cs).0
  unfolding offer_all offer
  offer_all-IsSound e over [] v = tt
  offer_all-IsSound e over (c ∷ cs) v =
      ground (arith, length-append c.buffer (e ∷ []), offer_all-IsSound e over cs v.1)

  take_one-IsSound :
      (over : Bool) (c : Subscriber E) → IsSound over c → IsSound over (take_one c.buffer c)
  unfolding take_one
  take_one-IsSound over c v = go c.buffer refl
    where
      go : (es : List E) → c.buffer ≡ es → IsSound over (take_one c.buffer c)
      go [] e = ground arith
      go (b ∷ bs) e = ground arith

  read_from-IsSound :
      (id : ℕ) (over : Bool) (cs : List (Subscriber E))
      → All (IsSound over) cs
      → All (IsSound over) (read_from id cs)
  unfolding read_from
  read_from-IsSound id over [] v = tt
  read_from-IsSound id over (c ∷ cs) v =
      (ground (arith, take_one-IsSound over c v.0), read_from-IsSound id over cs v.1)

  step-IsSound :
      (call : Call E) (h : Hub E)
      → All (IsSound h.closed) h.subs
      → All (IsSound (step call h).closed) (step call h).subs
  unfolding step subscribe subscriber cancel close publish receive
  step-IsSound subscribes h v = ground arith
  step-IsSound closes h v = shut_all-IsSound h.closed h.subs v
  step-IsSound (cancels id) h v = leave_all-IsSound id h.closed h.subs v
  step-IsSound (receives id) h v = read_from-IsSound id h.closed h.subs v
  step-IsSound (publishes e) h v = offer_all-IsSound e h.closed h.subs v

  -- Over any calls on a new hub: a channel is in the map exactly while it is open, so that no send
  -- or second close meets a closed one; it is closed once it was canceled or the hub was closed;
  -- and it never holds more than 64 events.
  pub run-IsSound :
      (calls : List (Call E)) → let h = run calls new_hub in All (IsSound h.closed) h.subs
  unfolding new_hub run
  run-IsSound calls = go calls new_hub tt
    where
      go :
          (calls : List (Call E)) (h : Hub E)
          → All (IsSound h.closed) h.subs
          → All (IsSound (run calls h).closed) (run calls h).subs
      go [] h v = v
      go (call ∷ rest) h v = go rest (step call h) (step-IsSound call h v)

  -- xs is what is left of ys when some of its elements are dropped.
  pub data Thins : List E → List E → Type ℓ where
    stop : (ys : List E) → Thins [] ys
    keep : (e : E) (xs ys : List E) → Thins xs ys → Thins (e ∷ xs) (e ∷ ys)
    skip : (e : E) (xs ys : List E) → Thins xs ys → Thins xs (e ∷ ys)

  later-Thins : (e : E) (xs ys : List E) → Thins xs ys → Thins xs (ys ++ e ∷ [])
  later-Thins e _ _ (stop ys) = stop (ys ++ e ∷ [])
  later-Thins e _ _ (keep a xs ys t) = keep a xs (ys ++ e ∷ []) (later-Thins e xs ys t)
  later-Thins e _ _ (skip a xs ys t) = skip a xs (ys ++ e ∷ []) (later-Thins e xs ys t)

  last-Thins : (e : E) (ys : List E) → Thins (e ∷ []) (ys ++ e ∷ [])
  last-Thins e [] = keep e [] [] (stop [])
  last-Thins e (y ∷ ys) = skip y (e ∷ []) (ys ++ e ∷ []) (last-Thins e ys)

  both-Thins : (e : E) (xs ys : List E) → Thins xs ys → Thins (xs ++ e ∷ []) (ys ++ e ∷ [])
  both-Thins e _ _ (stop ys) = last-Thins e ys
  both-Thins e _ _ (keep a xs ys t) = keep a (xs ++ e ∷ []) (ys ++ e ∷ []) (both-Thins e xs ys t)
  both-Thins e _ _ (skip a xs ys t) = skip a (xs ++ e ∷ []) (ys ++ e ∷ []) (both-Thins e xs ys t)

  -- What a subscriber has got so far, received or waiting, thins the published events.
  abbrev pub IsFaithful : List E → Subscriber E → Type ℓ
  IsFaithful log c = Thins (c.received ++ c.buffer) log

  leave_all-IsFaithful :
      (id : ℕ) (log : List E) (cs : List (Subscriber E))
      → All (IsFaithful log) cs
      → All (IsFaithful log) (leave_all id cs)
  unfolding leave_all leave
  leave_all-IsFaithful id log [] v = tt
  leave_all-IsFaithful id log (c ∷ cs) v =
      let rest = leave_all-IsFaithful id log cs v.1 in ground arith

  shut_all-IsFaithful :
      (log : List E) (cs : List (Subscriber E))
      → All (IsFaithful log) cs
      → All (IsFaithful log) (shut_all cs)
  unfolding shut_all shut
  shut_all-IsFaithful log [] v = tt
  shut_all-IsFaithful log (c ∷ cs) v = let rest = shut_all-IsFaithful log cs v.1 in ground arith

  offer_all-IsFaithful :
      (e : E) (log : List E) (cs : List (Subscriber E))
      → All (IsFaithful log) cs
      → All (IsFaithful (log ++ e ∷ [])) (offer_all e cs).0
  unfolding offer_all offer
  offer_all-IsFaithful e log [] v = tt
  offer_all-IsFaithful e log (c ∷ cs) v =
      let rest = offer_all-IsFaithful e log cs v.1 in
      let kept = later-Thins e (c.received ++ c.buffer) log v.0 in
      let sent = both-Thins e (c.received ++ c.buffer) log v.0 in
      ground (arith, append_assoc c.received c.buffer (e ∷ []))

  take_one-IsFaithful :
      (log : List E) (c : Subscriber E) → IsFaithful log c → IsFaithful log (take_one c.buffer c)
  unfolding take_one
  take_one-IsFaithful log c v = go c.buffer refl
    where
      go : (es : List E) → c.buffer ≡ es → IsFaithful log (take_one c.buffer c)
      go [] e = ground arith
      go (b ∷ bs) e = ground (arith, append_assoc c.received (b ∷ []) bs)

  read_from-IsFaithful :
      (id : ℕ) (log : List E) (cs : List (Subscriber E))
      → All (IsFaithful log) cs
      → All (IsFaithful log) (read_from id cs)
  unfolding read_from
  read_from-IsFaithful id log [] v = tt
  read_from-IsFaithful id log (c ∷ cs) v =
      let rest = read_from-IsFaithful id log cs v.1 in
      let first = take_one-IsFaithful log c v.0 in ground arith

  -- The events published by the calls, in order.
  abbrev pub published : List (Call E) → List E
  published [] = []
  published (publishes e ∷ calls) = e ∷ published calls
  published (_ ∷ calls) = published calls

  run-IsFaithful :
      (calls : List (Call E)) (log : List E) (h : Hub E)
      → All (IsFaithful log) h.subs
      → All (IsFaithful (log ++ published calls)) (run calls h).subs
  unfolding run step subscribe subscriber cancel close publish receive
  run-IsFaithful [] log h v = rw (append-nil log) v
  run-IsFaithful (subscribes ∷ calls) log h v =
      run-IsFaithful calls log (subscribe h)
        (elim (Bool-cases h.closed) [ inl e ↦ rw e (stop log, v) | inr e ↦ rw e (stop log, v) ])
  run-IsFaithful (closes ∷ calls) log h v =
      run-IsFaithful calls log (close h) (shut_all-IsFaithful log h.subs v)
  run-IsFaithful (cancels id ∷ calls) log h v =
      run-IsFaithful calls log (cancel id h) (leave_all-IsFaithful id log h.subs v)
  run-IsFaithful (receives id ∷ calls) log h v =
      run-IsFaithful calls log (receive id h) (read_from-IsFaithful id log h.subs v)
  run-IsFaithful (publishes e ∷ calls) log h v =
      rw (sym (append_assoc log (e ∷ []) (published calls)))
        (run-IsFaithful calls (log ++ e ∷ []) (publish e h) (offer_all-IsFaithful e log h.subs v))

  -- Over any calls on a new hub, what each subscriber has received, followed by what waits for it,
  -- is the published events with some left out: none is reordered, repeated or made up.
  pub delivery_in_order :
      (calls : List (Call E)) → All (IsFaithful (published calls)) (run calls new_hub).subs
  unfolding new_hub
  delivery_in_order calls = run-IsFaithful calls [] new_hub tt

  -- The subscribers that a Publish reaches for.
  abbrev pub count_joined : List (Subscriber E) → ℕ
  count_joined [] = 0
  count_joined (c ∷ cs) = bit c.registered + count_joined cs

  abbrev pub count_held : List (Subscriber E) → ℕ
  count_held [] = 0
  count_held (c ∷ cs) = length c.received + length c.buffer + count_held cs

  offer_all_lem :
      (e : E) (cs : List (Subscriber E))
      → count_held (offer_all e cs).0 + (offer_all e cs).1 ≡ count_held cs + count_joined cs
  unfolding offer_all offer
  offer_all_lem e [] = omega arith
  offer_all_lem e (c ∷ cs) = ground (arith, offer_all_lem e cs, length-append c.buffer (e ∷ []))

  -- A Publish gives the event to every subscriber in the map or counts it as dropped for it.
  pub publish_lem :
      (e : E) (h : Hub E)
      → count_held (publish e h).subs + (publish e h).dropped
        ≡ count_held h.subs + h.dropped + count_joined h.subs
  unfolding publish
  publish_lem e h = omega (arith, offer_all_lem e h.subs)
