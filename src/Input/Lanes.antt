-- ===== src/Input/Lanes.antt =====
-- Sequences of operations on the event queue, in the order in which the lock lets them through.
use drei.Base.{
  arith, ◌≡◌, refl, ap, sym, ◌∙◌, Bool, true, false, List, [], ◌∷◌, ◌++◌, append-nil, append_assoc,
  if◌then◌else◌, subst, Bool-cases, inl, inr, All, All-append,
}
use drei.Input.{
  InputEvent, Item, event, producer_failed, is_priority, EventQueue, new_queue, put, fail, close,
  Next, returned, raised, end_of_input, blocked, of_item, take_next, next_event,
}

module _ (Failure : Type 0) where
  pub data Operation : Type 0 where
    putting : InputEvent → Operation
    failing : Failure → Operation
    taking closing : Operation

  -- The queue afterwards, and what each `next_event` did.
  unfoldable pub run :
      List Operation → EventQueue Failure → EventQueue Failure × List (Next Failure)
  unfolding put fail close next_event
  run [] q = (q, [])
  run (putting e ∷ os) q = run os (put Failure e q)
  run (failing f ∷ os) q = run os (fail Failure f q)
  run (closing ∷ os) q = run os (close Failure q)
  run (taking ∷ os) q =
      let (after, did) = next_event Failure q in
      let (last, dids) = run os after in (last, did ∷ dids)

  -- What is put on each lane while the queue is open.
  unfoldable pub urgent : Bool → List Operation → List (Item Failure)
  unfolding is_priority
  urgent c [] = []
  urgent c (closing ∷ os) = urgent true os
  urgent c (taking ∷ os) = urgent c os
  urgent c (putting e ∷ os) =
      let rest = urgent c os in if c then rest else if is_priority e then event e ∷ rest else rest
  urgent c (failing f ∷ os) = let rest = urgent c os in if c then rest else producer_failed f ∷ rest

  unfoldable pub patient : Bool → List Operation → List InputEvent
  unfolding is_priority
  patient c [] = []
  patient c (closing ∷ os) = patient true os
  patient c (taking ∷ os) = patient c os
  patient c (putting e ∷ os) =
      let rest = patient c os in if c then rest else if is_priority e then rest else e ∷ rest
  patient c (failing f ∷ os) = patient c os

  -- What was taken from each lane.
  unfoldable pub urgent_taken : List (Next Failure) → List (Item Failure)
  unfolding is_priority
  urgent_taken [] = []
  urgent_taken (returned e ∷ ds) =
      let rest = urgent_taken ds in if is_priority e then event e ∷ rest else rest
  urgent_taken (raised f ∷ ds) = producer_failed f ∷ urgent_taken ds
  urgent_taken (end_of_input ∷ ds) = urgent_taken ds
  urgent_taken (blocked ∷ ds) = urgent_taken ds

  unfoldable pub patient_taken : List (Next Failure) → List InputEvent
  unfolding is_priority
  patient_taken [] = []
  patient_taken (returned e ∷ ds) =
      let rest = patient_taken ds in if is_priority e then rest else e ∷ rest
  patient_taken (_ ∷ ds) = patient_taken ds

  -- Each event is in its lane.
  abbrev IsUrgent : Item Failure → Type 0
  IsUrgent (event e) = is_priority e ≡ true
  IsUrgent (producer_failed f) = true ≡ true

  abbrev IsPatient : InputEvent → Type 0
  IsPatient e = is_priority e ≡ false

  abbrev queue : List (Item Failure) → List InputEvent → Bool → EventQueue Failure
  queue p b c = record { priority = p; background = b; closed = c }

  put-urgent :
      (e : InputEvent) (p : List (Item Failure)) (b : List InputEvent)
      → is_priority e ≡ true
      → put Failure e (queue p b false) ≡ queue (p ++ event e ∷ []) b false
  unfolding put
  put-urgent e p b h = rw h

  put-patient :
      (e : InputEvent) (p : List (Item Failure)) (b : List InputEvent)
      → is_priority e ≡ false
      → put Failure e (queue p b false) ≡ queue p (b ++ e ∷ []) false
  unfolding put
  put-patient e p b h = rw h

  -- In order, what was taken from a lane and what is left on it, of a run's result.
  Balanced :
      EventQueue Failure × List (Next Failure) → List (Item Failure) → List InputEvent → Type 0
  unfolding urgent_taken patient_taken
  Balanced (last, dids) p b =
      (urgent_taken dids ++ last.priority ≡ p) × (patient_taken dids ++ last.background ≡ b)

  run-conserves :
      (os : List Operation) (p : List (Item Failure)) (b : List InputEvent) (c : Bool)
      → All IsUrgent p
      → All IsPatient b
      → Balanced (run os (queue p b c)) (p ++ urgent c os) (b ++ patient c os)
  unfolding Balanced run urgent patient urgent_taken patient_taken fail close next_event take_next
      of_item put
  run-conserves [] p b c u v = (sym (append-nil p), sym (append-nil b))
  run-conserves (closing ∷ os) p b c u v = run-conserves os p b true u v
  run-conserves (failing f ∷ os) p b true u v = run-conserves os p b true u v
  run-conserves (failing f ∷ os) p b false u v =
      let (x, y) =
        run-conserves os (p ++ producer_failed f ∷ []) b false (All-append IsUrgent p _ u (refl, _))
          v in
      (x ∙ append_assoc p (producer_failed f ∷ []) (urgent false os), y)
  run-conserves (putting e ∷ os) p b true u v = run-conserves os p b true u v
  run-conserves (putting e ∷ os) p b false u v = elim (Bool-cases (is_priority e)) [
    | inl h ↦
        let (x, y) =
          run-conserves os (p ++ event e ∷ []) b false (All-append IsUrgent p _ u (h, _)) v in
        subst
          (λ q.
            Balanced (run os q) (p ++ urgent false (putting e ∷ os))
              (b ++ patient false (putting e ∷ os)))
          (sym (put-urgent e p b h)) (rw h (x ∙ append_assoc p (event e ∷ []) (urgent false os), y))
    | inr h ↦
        let (x, y) = run-conserves os p (b ++ e ∷ []) false u (All-append IsPatient b _ v (h, _)) in
        subst
          (λ q.
            Balanced (run os q) (p ++ urgent false (putting e ∷ os))
              (b ++ patient false (putting e ∷ os)))
          (sym (put-patient e p b h)) (rw h (x, y ∙ append_assoc b (e ∷ []) (patient false os)))
  ]
  run-conserves (taking ∷ os) (event e ∷ p) b c (h, u) v =
      let (x, y) = run-conserves os p b c u v in rw h (ap (λ r. event e ∷ r) x, y)
  run-conserves (taking ∷ os) (producer_failed f ∷ p) b c (h, u) v =
      let (x, y) = run-conserves os p b c u v in (ap (λ r. producer_failed f ∷ r) x, y)
  run-conserves (taking ∷ os) [] (e ∷ b) c u (h, v) =
      let (x, y) = run-conserves os [] b c u v in rw h (x, ap (λ r. e ∷ r) y)
  run-conserves (taking ∷ os) [] [] true u v = run-conserves os [] [] true u v
  run-conserves (taking ∷ os) [] [] false u v = run-conserves os [] [] false u v

  -- From a new queue, whatever is put, failed, closed and taken in whatever order: what was taken
  -- from a lane, followed by what is left on it, is exactly what was put on that lane while the queue
  -- was open, in that order.
  pub run-urgent_taken :
      (os : List Operation)
      → (urgent_taken (run os (new_queue Failure)).1 ++ (run os (new_queue Failure)).0.priority
          ≡ urgent false os)
        × (patient_taken (run os (new_queue Failure)).1 ++ (run os (new_queue Failure)).0.background
            ≡ patient false os)
  unfolding Balanced
  run-urgent_taken os = run-conserves os [] [] false _ _

  -- It waits, or the input ended.
  unfoldable pub is_idle : Next Failure → Bool
  is_idle end_of_input = true
  is_idle blocked = true
  is_idle _ = false

  is_idle-empty :
      (p : List (Item Failure)) (b : List InputEvent) (c : Bool)
      → is_idle (take_next Failure p b c).1 ≡ true
      → (p ≡ []) × (b ≡ [])
  unfolding is_idle take_next of_item
  is_idle-empty [] [] c h = (refl, refl)
  is_idle-empty [] (e ∷ b) c h = ground arith
  is_idle-empty (event e ∷ p) b c h = ground arith
  is_idle-empty (producer_failed f ∷ p) b c h = ground arith

  -- Whatever is put, failed, closed and taken in whatever order: a consumer that would have to wait, or
  -- that is told that the input ended, has been given every event that was put while the queue was
  -- open, each lane in its order.
  pub run-is_idle :
      (os : List Operation)
      → is_idle (next_event Failure (run os (new_queue Failure)).0).1 ≡ true
      → (urgent_taken (run os (new_queue Failure)).1 ≡ urgent false os)
        × (patient_taken (run os (new_queue Failure)).1 ≡ patient false os)
  unfolding next_event
  run-is_idle os h =
      let q = (run os (new_queue Failure)).0 in
      let (x, y) = run-urgent_taken os in
      let (p, b) = is_idle-empty q.priority q.background q.closed h in
      (
        sym (append-nil (urgent_taken (run os (new_queue Failure)).1))
            ∙ (ap (λ r. urgent_taken (run os (new_queue Failure)).1 ++ r) (sym p) ∙ x),
        sym (append-nil (patient_taken (run os (new_queue Failure)).1))
            ∙ (ap (λ r. patient_taken (run os (new_queue Failure)).1 ++ r) (sym b) ∙ y),
      )
