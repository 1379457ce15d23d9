-- ===== src/Channels/Order.antt =====
-- internal/eval/eval_concurrency.go: the steps of a channel in any order, seen by their events.
use kolang.Prelude.{
  ℕ, ◌+◌, ◌≡◌, refl, sym, ap, ◌∙◌, List, [], ◌∷◌, ◌++◌, Bool, true, false, if◌then◌else◌,
  append-nil, append_assoc, arith,
}
use kolang.Channels.{
  Channel, Event, asked, took, handed, gave_up, gave, closing, begin_send, refuse_send, deliver,
  hand_over, give_up, receive, drained, close, close_again, Run, run_nil, run_cons,
}

module _ {V : Type 0} where
  abbrev add_asked : Event V → List V → List V
  add_asked (asked v) vs = v ∷ vs
  add_asked _ vs = vs

  abbrev add_taken : Event V → List V → List V
  add_taken (took v) vs = v ∷ vs
  add_taken (handed v) vs = v ∷ vs
  add_taken _ vs = vs

  abbrev add_given : Event V → List V → List V
  add_given (gave v) vs = v ∷ vs
  add_given (handed v) vs = v ∷ vs
  add_given _ vs = vs

  abbrev add_gave_up : Event V → List V → List V
  add_gave_up (gave_up v) vs = v ∷ vs
  add_gave_up _ vs = vs

  -- The values of the sends that began, of those whose value was taken, of the receives, and of the
  -- sends that gave up, in the order of the events.
  abbrev pub asked_in : List (Event V) → List V
  asked_in [] = []
  asked_in (e ∷ es) = add_asked e (asked_in es)

  abbrev pub taken_in : List (Event V) → List V
  taken_in [] = []
  taken_in (e ∷ es) = add_taken e (taken_in es)

  abbrev pub given_in : List (Event V) → List V
  given_in [] = []
  given_in (e ∷ es) = add_given e (given_in es)

  abbrev pub gave_up_in : List (Event V) → List V
  gave_up_in [] = []
  gave_up_in (e ∷ es) = add_gave_up e (gave_up_in es)

  abbrev pub has_closing : List (Event V) → Bool
  has_closing [] = false
  has_closing (closing ∷ es) = true
  has_closing (_ ∷ es) = has_closing es

  -- How many of the values pass a test.
  abbrev pub count : (V → Bool) → List V → ℕ
  count test [] = 0
  count test (v ∷ vs) = (if test v then 1 else 0) + count test vs

  count-append :
      (test : V → Bool) (xs ys : List V) → count test (xs ++ ys) ≡ count test xs + count test ys
  count-append test [] ys = omega arith
  count-append test (x ∷ xs) ys = omega (arith, count-append test xs ys)

  count-removed :
      (test : V → Bool) (before : List V) (v : V) (after : List V)
      → count test (before ++ (v ∷ after))
        ≡ (if test v then 1 else 0) + count test (before ++ after)
  count-removed test [] v after = refl
  count-removed test (x ∷ before) v after = omega (arith, count-removed test before v after)

  -- A value that leaves the waiting ones, which begin the list.
  count-leaving :
      (test : V → Bool) (pending before : List V) (v : V) (after more others : List V)
      → pending ≡ before ++ (v ∷ after)
      → count test ((before ++ after) ++ more) ≡ count test others
      → count test (pending ++ more) ≡ count test (v ∷ others)
  count-leaving test pending before v after more others h e =
      ap (λ p. count test (p ++ more)) h
      ∙ omega (
        arith,
        e,
        count-append test (before ++ (v ∷ after)) more,
        count-append test (before ++ after) more,
        count-removed test before v after,
      )

  run_order :
      {c d : Channel V} {events : List (Event V)}
      → Run V c events d
      → c.buffer ++ taken_in events ≡ given_in events ++ d.buffer
  run_order {c} run_nil = append-nil c.buffer
  run_order (run_cons (begin_send v h) rest) = run_order rest
  run_order (run_cons (refuse_send h) rest) = run_order rest
  run_order (run_cons {c} {events = events} (deliver before v after h room) rest) =
      sym (append_assoc c.buffer (v ∷ []) (taken_in events)) ∙ run_order rest
  run_order (run_cons {events = events} (hand_over before v after h none) rest) =
      ap (λ b. b ++ (v ∷ taken_in events)) none
      ∙ ap (◌∷◌ v) (ap (λ b. b ++ taken_in events) (sym none) ∙ run_order rest)
  run_order (run_cons (give_up before v after h k) rest) = run_order rest
  run_order (run_cons {events = events} (receive v left h) rest) =
      ap (λ b. b ++ taken_in events) h ∙ ap (◌∷◌ v) (run_order rest)
  run_order (run_cons (drained h k) rest) = run_order rest
  run_order (run_cons (close h) rest) = run_order rest
  run_order (run_cons (close_again h) rest) = run_order rest

  -- The values that are waiting or begin to wait are taken, give up, or still wait.
  abbrev Kept : (V → Bool) → Channel V → List (Event V) → Channel V → Type 0
  Kept test c events d =
      count test (c.pending ++ asked_in events)
      ≡ count test (taken_in events ++ (gave_up_in events ++ d.pending))

  run-Kept :
      (test : V → Bool) {c d : Channel V} {events : List (Event V)}
      → Run V c events d
      → Kept test c events d
  run-Kept test {c} run_nil = omega (arith, count-append test c.pending [])
  run-Kept test (run_cons {c} {events = events} (begin_send v h) rest) =
      ap (count test) (sym (append_assoc c.pending (v ∷ []) (asked_in events))) ∙ run-Kept test rest
  run-Kept test (run_cons (refuse_send h) rest) = run-Kept test rest
  run-Kept test (run_cons {c} {events = events} (deliver before v after h room) rest) =
      count-leaving test c.pending before v after (asked_in events) _ h (run-Kept test rest)
  run-Kept test (run_cons {c} {events = events} (hand_over before v after h none) rest) =
      count-leaving test c.pending before v after (asked_in events) _ h (run-Kept test rest)
  run-Kept test (run_cons {c} {e = d} {events = events} (give_up before v after h k) rest) =
      count-leaving test c.pending before v after (asked_in events)
        (taken_in events ++ (gave_up_in events ++ d.pending)) h (run-Kept test rest)
      ∙ sym (count-removed test (taken_in events) v (gave_up_in events ++ d.pending))
  run-Kept test (run_cons (receive v left h) rest) = run-Kept test rest
  run-Kept test (run_cons (drained h k) rest) = run-Kept test rest
  run-Kept test (run_cons (close h) rest) = run-Kept test rest
  run-Kept test (run_cons (close_again h) rest) = run-Kept test rest

  -- Whatever the order of the goroutines' steps: the values that were buffered and are taken from
  -- senders are, one behind the other, the values given to receivers and those buffered at the end.
  -- And of the values of the sends that waited or began to wait, each is taken once, or given up once,
  -- or still waits at the end: as many of them pass a test, whatever the test.
  pub Run-order :
      {c d : Channel V} {events : List (Event V)}
      → Run V c events d
      → (c.buffer ++ taken_in events ≡ given_in events ++ d.buffer)
        × ((test : V → Bool)
            → count test (c.pending ++ asked_in events)
              ≡ count test (taken_in events ++ (gave_up_in events ++ d.pending)))
  Run-order run = (run_order run, λ test. run-Kept test run)

  run_closed :
      {c d : Channel V} {events : List (Event V)}
      → Run V c events d
      → c.closed ≡ true
      → (d.closed ≡ true) × (asked_in events ≡ [])
  run_closed run_nil k = (k, refl)
  run_closed (run_cons (begin_send v h) rest) k = absurd (cc)
  run_closed (run_cons (refuse_send h) rest) k = run_closed rest k
  run_closed (run_cons (deliver before v after h room) rest) k = run_closed rest k
  run_closed (run_cons (hand_over before v after h none) rest) k = run_closed rest k
  run_closed (run_cons (give_up before v after h e) rest) k = run_closed rest k
  run_closed (run_cons (receive v left h) rest) k = run_closed rest k
  run_closed (run_cons (drained h e) rest) k = run_closed rest k
  run_closed (run_cons (close h) rest) k = run_closed rest refl
  run_closed (run_cons (close_again h) rest) k = run_closed rest k

  -- A closed channel stays closed and no send begins to wait on it. So the values of the sends that
  -- waited, and no others, are taken, given up or still waiting at the end, each of them once: as
  -- many of them pass a test, whatever the test.
  pub Run-closed :
      {c d : Channel V} {events : List (Event V)}
      → Run V c events d
      → c.closed ≡ true
      → (d.closed ≡ true)
        × (asked_in events ≡ [])
        × ((test : V → Bool)
            → count test c.pending
              ≡ count test (taken_in events ++ (gave_up_in events ++ d.pending)))
  Run-closed {c} run k =
      let kept = run_closed run k in
      (
        kept.0,
        kept.1,
        λ test.
            ap (count test) (sym (append-nil c.pending) ∙ ap (λ vs. c.pending ++ vs) (sym kept.1))
            ∙ run-Kept test run,
      )
