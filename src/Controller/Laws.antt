-- ===== src/Controller/Laws.antt =====
-- pkg/common/controller.go: what the worker does with each item.
use cert_broker.Base.{
  String, Bool, true, ◌≡◌, refl, ◌∙◌, ap, arith, Option, none, some, List, [], ◌∷◌, ◌++◌,
  append_assoc, append-nil, inl, inr,
}
use cert_broker.Base.Exec.{Exec, Outcome, Outcome-cases, returned, panicked}
use cert_broker.Queue.{Item, key, foreign, Worker}
use cert_broker.Controller.{
  QueueCall, done, forget, add_rate_limited, worker_done, process_next_work_item, run_worker,
}

module _ {Error : Type 0} where
  -- The calls of the queue for an item, by what Sync gave for it.
  abbrev pub calls_for : Item → Outcome (Option Error) → List QueueCall
  calls_for item (returned none) = forget item ∷ done item ∷ []
  calls_for item (returned (some e)) = done item ∷ add_rate_limited item ∷ []
  calls_for item panicked = done item ∷ []

  abbrev pub goes_on : Outcome (Option Error) → Outcome Bool
  goes_on (returned e) = returned true
  goes_on panicked = panicked

module _ {S Error : Type 0} (sync : String → Exec S (Option Error)) where
  abbrev pub item_outcome : Item → S → Outcome (Option Error) × S
  item_outcome foreign s = (returned none, s)
  item_outcome (key k) s = sync k s

  -- An item is always marked as done. It is forgotten if Sync succeeded or if the item is no key,
  -- and added again if Sync failed; a panic of Sync goes through.
  pub process_next_work_item_lem :
      (item : Item) (w : Worker S QueueCall)
      → let (r, s) = item_outcome item w.state in
        process_next_work_item sync (some item) w
        ≡ (goes_on r, record { state = s; calls = w.calls ++ calls_for item r })
  unfolding process_next_work_item
  process_next_work_item_lem foreign w =
      ap (λ (l : List QueueCall). (returned true, record w { calls = l }))
        (append_assoc w.calls (forget foreign ∷ []) (done foreign ∷ []))
  process_next_work_item_lem (key k) w = elim (Outcome-cases (sync k w.state).0) [
    | inl (none, e) ↦
        ground (arith, e, append_assoc w.calls (forget (key k) ∷ []) (done (key k) ∷ []))
    | inl (some x, e) ↦
        ground (arith, e, append_assoc w.calls (done (key k) ∷ []) (add_rate_limited (key k) ∷ []))
    | inr e ↦ ground (arith, e)
  ]

  -- The calls for the items that Get returns, and the state after them.
  abbrev pub trace : S → List Item → List QueueCall × S
  trace s [] = ([], s)
  trace s (item ∷ items) =
      let (r, s') = item_outcome item s in
      let (calls, s'') = trace s' items in (calls_for item r ++ calls, s'')

  module _
      (safe : (item : Item) (s : S)
        → (e : Option Error) × ((item_outcome item s).0 ≡ returned e)) where
    -- If Sync never panics, then the worker makes the calls for all items, in order, and ends with
    -- one call of workerwg.Done.
    pub run_worker_lem :
        (items : List Item) (w : Worker S QueueCall)
        → run_worker sync items w ≡ (
          returned tt,
          record {
            state = (trace w.state items).1;
            calls = w.calls ++ ((trace w.state items).0 ++ worker_done ∷ []);
          },
        )
    unfolding run_worker
    run_worker_lem [] w = unfold process_next_work_item in refl
    run_worker_lem (item ∷ items) w =
        let (e, r) = safe item w.state in
        ground (
          arith,
          process_next_work_item_lem item w,
          r,
          run_worker_lem items (record {
            state = (item_outcome item w.state).1;
            calls = w.calls ++ calls_for item (item_outcome item w.state).0;
          }),
          append_assoc w.calls (calls_for item (item_outcome item w.state).0)
              ((trace (item_outcome item w.state).1 items).0 ++ worker_done ∷ []),
          append_assoc (calls_for item (item_outcome item w.state).0)
              (trace (item_outcome item w.state).1 items).0 (worker_done ∷ []),
        )

-- The items that are marked as done.
abbrev pub dones : List QueueCall → List Item
dones [] = []
dones (done item ∷ calls) = item ∷ dones calls
dones (_ ∷ calls) = dones calls

dones-append : (a b : List QueueCall) → dones (a ++ b) ≡ dones a ++ dones b
dones-append [] b = refl
dones-append (done item ∷ a) b = ap (λ (l : List Item). item ∷ l) (dones-append a b)
dones-append (forget item ∷ a) b = dones-append a b
dones-append (add_rate_limited item ∷ a) b = dones-append a b
dones-append (worker_done ∷ a) b = dones-append a b

dones-calls_for :
    {Error : Type 0} (item : Item) (r : Outcome (Option Error))
    → dones (calls_for item r) ≡ item ∷ []
dones-calls_for item (returned none) = refl
dones-calls_for item (returned (some e)) = refl
dones-calls_for item panicked = refl

dones-trace :
    {S Error : Type 0} (sync : String → Exec S (Option Error)) (items : List Item) (s : S)
    → dones (trace sync s items).0 ≡ items
dones-trace sync [] s = refl
dones-trace sync (item ∷ items) s =
    let (r, s') = item_outcome sync item s in
    dones-append (calls_for item r) (trace sync s' items).0
    ∙ ap (λ (l : List Item). l ++ dones (trace sync s' items).0) (dones-calls_for item r)
    ∙ ap (λ (l : List Item). item ∷ l) (dones-trace sync items s')

module _ {S Error : Type 0} (sync : String → Exec S (Option Error)) where
  -- If Sync never panics, then the worker marks every item that Get returned as done, once and in
  -- order, whether Sync failed or not.
  pub dones-run_worker :
      ((item : Item) (s : S) → (e : Option Error) × ((item_outcome sync item s).0 ≡ returned e))
      → (items : List Item) (w : Worker S QueueCall)
      → dones (run_worker sync items w).1.calls ≡ dones w.calls ++ items
  dones-run_worker safe items w =
      let t = trace sync w.state items in
      rw (run_worker_lem sync safe items w) (
        dones-append w.calls (t.0 ++ worker_done ∷ [])
        ∙ ap (λ (l : List Item). dones w.calls ++ l)
            (dones-append t.0 (worker_done ∷ [])
              ∙ append-nil (dones t.0)
              ∙ dones-trace sync items w.state))
