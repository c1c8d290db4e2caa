-- ===== src/Overlap/Busy.antt =====
-- Runs of the handlers during which other workers run: before each call that a handler makes, the
-- world may change, as the calls of the other workers and of other clients change it. What a worker
-- does between two calls of its own touches no state that is shared but the template.
use cert_broker.Base.{String, List, [], ◌∷◌, All, ok, ◌≡◌, ◌≢◌}
use cert_broker.Base.GoMap.{GoMap}
use cert_broker.Kube.{Ingress}
use cert_broker.Kube.Api.{Api}
use cert_broker.Kube.Guarded.{IsGuarded}

-- The world with what happens to it before the next calls, at most one change before each; a change
-- is any function, so that it may stand for several calls, and for none.
abbrev pub Busy : Type 0 → Type 0
Busy W = W × List (W → W)

module _ {W A : Type 0} where
  abbrev pub interrupted : (W → A × W) → Busy W → A × Busy W
  interrupted f (w, []) = let (a, w') = f w in (a, (w', []))
  interrupted f (w, change ∷ changes) = let (a, w') = f (change w) in (a, (w', changes))

abbrev pub overlapped : Api → Api
overlapped api = record api {
  World = Busy api.World;
  target_ingress = λ ns n. interrupted (api.target_ingress ns n);
  control_ingress = λ ns n. interrupted (api.control_ingress ns n);
  control_secret = λ ns n. interrupted (api.control_secret ns n);
  control_event = λ ns n. interrupted (api.control_event ns n);
  control_certificate = λ ns n. interrupted (api.control_certificate ns n);
  target_ingresses = λ ns l. interrupted (api.target_ingresses ns l);
  create_ingress = λ ns i. interrupted (api.create_ingress ns i);
  update_ingress = λ ns i. interrupted (api.update_ingress ns i);
  delete_ingress = λ ns n. interrupted (api.delete_ingress ns n);
  delete_secret = λ ns n. interrupted (api.delete_secret ns n);
  update_event = λ ns e. interrupted (api.update_event ns e);
  create_secret = λ ns x. interrupted (api.create_secret ns x);
  update_secret = λ ns x. interrupted (api.update_secret ns x);
  record_event = λ i t r m. interrupted (api.record_event i t r m);
  range = λ m. interrupted (api.range m);
}

module _ {W : Type 0} (Inv : W → Type 0) where
  abbrev pub Keeps : (W → W) → Type 0
  Keeps f = (w : W) → Inv w → Inv (f w)

  -- The invariant holds, and every change to come keeps it.
  abbrev pub IsCalm : Busy W → Type 0
  IsCalm (w, changes) = Inv w × All Keeps changes

  pub interrupted-IsCalm :
      {A : Type 0} (f : W → A × W)
      → ((w : W) → Inv w → Inv (f w).1)
      → (b : Busy W) → IsCalm b
      → IsCalm (interrupted f b).1
  interrupted-IsCalm f keeps (w, []) (inv, calm) = (keeps w inv, calm)
  interrupted-IsCalm f keeps (w, change ∷ changes) (inv, (calm, rest)) =
      (keeps _ (calm w inv), rest)

pub IsGuarded-overlapped :
    (api : Api) (Inv : api.World → Type 0)
    → IsGuarded api Inv
    → IsGuarded (overlapped api) (IsCalm Inv)
IsGuarded-overlapped api Inv g = record {
  keeps-target_ingress = λ ns n. interrupted-IsCalm Inv _ (g.keeps-target_ingress ns n);
  keeps-control_ingress = λ ns n. interrupted-IsCalm Inv _ (g.keeps-control_ingress ns n);
  keeps-control_secret = λ ns n. interrupted-IsCalm Inv _ (g.keeps-control_secret ns n);
  keeps-control_event = λ ns n. interrupted-IsCalm Inv _ (g.keeps-control_event ns n);
  keeps-control_certificate = λ ns n. interrupted-IsCalm Inv _ (g.keeps-control_certificate ns n);
  keeps-target_ingresses = λ ns l. interrupted-IsCalm Inv _ (g.keeps-target_ingresses ns l);
  keeps-range = λ m. interrupted-IsCalm Inv _ (g.keeps-range m);
  keeps-record_event = λ i t r m. interrupted-IsCalm Inv _ (g.keeps-record_event i t r m);
  keeps-create_ingress = λ ns i b a.
      interrupted-IsCalm Inv (api.create_ingress ns i) (λ w. g.keeps-create_ingress ns i w a) b;
  keeps-update_ingress = λ ns i b a.
      interrupted-IsCalm Inv (api.update_ingress ns i) (λ w. g.keeps-update_ingress ns i w a) b;
  keeps-delete_ingress = λ ns n. interrupted-IsCalm Inv _ (g.keeps-delete_ingress ns n);
  keeps-delete_secret = λ ns n. interrupted-IsCalm Inv _ (g.keeps-delete_secret ns n);
  keeps-update_event = λ ns e. interrupted-IsCalm Inv _ (g.keeps-update_event ns e);
  keeps-create_secret = λ ns x. interrupted-IsCalm Inv _ (g.keeps-create_secret ns x);
  keeps-update_secret = λ ns x. interrupted-IsCalm Inv _ (g.keeps-update_secret ns x);
  reads_annotated = reads;
}
  where
    reads :
        (ns n : String) (b : Busy api.World) (i : Ingress)
        → IsCalm Inv b
        → ((overlapped api).control_ingress ns n b).0 ≡ ok i
        → i.annotations ≢ GoMap.nil
    reads ns n (w, []) i (inv, calm) e = g.reads_annotated ns n w i inv e
    reads ns n (w, change ∷ changes) i (inv, (calm, rest)) e =
        g.reads_annotated ns n (change w) i (calm w inv) e
