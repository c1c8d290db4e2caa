-- ===== src/Events/Laws.antt =====
-- pkg/events/eventhandler.go: which events are enqueued, and those that Sync has written.
use Prim.Native.Nat.{◌^◌}
use cert_broker.Base.{
  String, ◌<◌, true, false, ◌||◌, ◌≡◌, refl, ap, arith, none, some, [], inl, inr, if◌then◌else◌,
  append-nil, Bool-cases,
}
use cert_broker.Base.Exec.{returned}
use cert_broker.Base.Int
use cert_broker.Base.Int.{ℤ, pos, negsuc}
use cert_broker.Base.GoMap.{GoMap, index, pairs, lookup, insert, lookup-insert}
use cert_broker.Base.Decimal.{itoa, parse_int_32}
use cert_broker.Base.Decimal.Laws.{parse_int_32-itoa_pos, parse_int_32-itoa_negsuc}
use cert_broker.Kube.{Event, event}
use cert_broker.Kube.Api.{Api}
use cert_broker.Naming.{garden_count}
use cert_broker.Events.Handlers.{on_add, is_newer, is_nil, add_to_queue}
use cert_broker.Events.Sync.{counted}

-- A number of 32 bits with a sign.
abbrev pub IsInt32 : ℤ → Type 0
IsInt32 (pos n) = n < 2 ^ 31
IsInt32 (negsuc n) = n < 2 ^ 31

-- What Itoa prints of a count of 32 bits, ParseInt reads back.
pub parse_int_32-itoa : (z : ℤ) → IsInt32 z → parse_int_32 (itoa z) ≡ some z
parse_int_32-itoa (pos n) h = parse_int_32-itoa_pos n h
parse_int_32-itoa (negsuc n) h = parse_int_32-itoa_negsuc n h

lt_irrefl : (z : ℤ) → Int.lt z z ≡ false
lt_irrefl (pos n) = ground arith
lt_irrefl (negsuc n) = ground arith

index_of_nil : (m : GoMap) (k : String) → is_nil m ≡ true → index m k ≡ ""
unfolding lookup
index_of_nil GoMap.nil k h = refl
index_of_nil (GoMap.made m) k h = absurd (cc h)

parse_int_32-empty : parse_int_32 "" ≡ none
unfolding parse_int_32
parse_int_32-empty = refl

module _ (api : Api) (e : Event) where
  not-newer_of_nil : is_nil e.annotations ≡ true → is_newer api e ≡ false
  not-newer_of_nil h = ground (arith, index_of_nil e.annotations garden_count h, parse_int_32-empty)

  -- OnAdd enqueues an event at most once: if its annotations are nil, or if its count is above the
  -- one that they note.
  pub on_add-once :
      on_add api (event e)
      ≡ returned (if is_nil e.annotations || is_newer api e then add_to_queue api (event e) else [])
  unfolding on_add
  on_add-once = elim (Bool-cases (is_nil e.annotations)) [
    | inl n ↦ rw (n, not-newer_of_nil n) (ap returned (append-nil (add_to_queue api (event e))))
    | inr n ↦ rw n refl
  ]

  -- An event as Sync writes it back, with its count noted, is not enqueued when it is added, if the
  -- count has 32 bits.
  pub on_add-counted : IsInt32 e.count → on_add api (event (counted e)) ≡ returned []
  unfolding on_add counted
  on_add-counted h =
      let noted : lookup garden_count (insert garden_count (itoa e.count) (pairs e.annotations))
          ≡ some (itoa e.count) =
        lookup-insert garden_count garden_count (itoa e.count) (pairs e.annotations) in
      ground (arith, noted, parse_int_32-itoa e.count h, lt_irrefl e.count)
