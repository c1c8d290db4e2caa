-- ===== src/Template/Calls/Invariant.antt =====
-- What holds of calls that overlap.
use cert_broker.Base.{
  Bool, true, false, Bool-cases, String, ◌≡◌, refl, sym, ap, ◌∙◌, ◌⊎◌, inl, inr, List, [], ◌∷◌, Any,
}
use Prim.Native.String as Text
use cert_broker.Base.Text.{nonempty}
use cert_broker.Base.GoMap
use cert_broker.Base.GoMap.{insert}
use cert_broker.Kube.{Ingress}
use cert_broker.Template.{
  IngressTemplate, create_control_ingress, annotation_pairs, common_pairs, dns_provider_key,
}
use cert_broker.Template.Calls.{
  Call, Stage, called, stored, tested, built, with_provider, build, Advance, store, test, finish,
  other, Advances, no_step, step, all_called,
}

-- What a call returns that no other one overlaps, with another provider.
abbrev pub alone : String → IngressTemplate → Call → String → Ingress
alone ingress_class t c provider =
    (create_control_ingress ingress_class t c.name c.namespace provider c.tls).1

-- The template of some call.
abbrev pub IsOf : IngressTemplate → List Call → IngressTemplate → Type 0
IsOf t cs t' = Any (λ c. t' ≡ with_provider t c) cs

-- The Ingress of a call with an empty value under the key of the provider, which no call returns alone.
abbrev pub emptied : String → IngressTemplate → Call → Ingress
emptied ingress_class t c = record (alone ingress_class t c "") {
  annotations = GoMap.made (insert dns_provider_key "" (common_pairs ingress_class t));
}

-- Some call has a provider, and some call has the empty one.
abbrev pub SomeEmpty : List Call → Type 0
SomeEmpty cs = Any (λ c. nonempty c.dns_provider ≡ true) cs × Any (λ c. c.dns_provider ≡ "") cs

-- The test has given what it gives for the provider of some call. The Ingress is that of the call with
-- the provider of some call, or with an empty value under the key.
abbrev pub IsMade : String → IngressTemplate → List Call → Call → Stage → Type 0
IsMade ingress_class t cs c called = Unit {0}
IsMade ingress_class t cs c stored = Unit {0}
IsMade ingress_class t cs c (tested outcome) = Any (λ c'. nonempty c'.dns_provider ≡ outcome) cs
IsMade ingress_class t cs c (built ing) =
    Any (λ c'. ing ≡ alone ingress_class t c c'.dns_provider) cs
    ⊎ (SomeEmpty cs × (ing ≡ emptied ingress_class t c))

abbrev pub AllMade : String → IngressTemplate → List Call → List (Call × Stage) → Type 0
AllMade ingress_class t cs [] = Unit {0}
AllMade ingress_class t cs ((c, stage) ∷ l) =
    IsMade ingress_class t cs c stage × AllMade ingress_class t cs l

abbrev pub AllCalled : List (Call × Stage) → Type 0
AllCalled [] = Unit {0}
AllCalled ((c, called) ∷ l) = AllCalled l
AllCalled ((c, _) ∷ l) = ⊥

-- Every call under way is one of the list.
abbrev pub AllOf : List Call → List (Call × Stage) → Type 0
AllOf cs [] = Unit {0}
AllOf cs ((c, stage) ∷ l) = Any (λ c'. c' ≡ c) cs × AllOf cs l

pub record Fits (ingress_class : String) (t : IngressTemplate) (cs : List Call)
    (t' : IngressTemplate) (l : List (Call × Stage)) : Type 0 where
  pub provider : (p : String) × (t' ≡ record t { dns01_provider = p })
  pub source : AllCalled l ⊎ IsOf t cs t'
  pub made : AllMade ingress_class t cs l
  pub calls : AllOf cs l

Any-map : {P Q : Call → Type 0} → ((c : Call) → P c → Q c) → (cs : List Call) → Any P cs → Any Q cs
Any-map f [] h = absurd h
Any-map f (c ∷ cs) (inl h) = inl (f c h)
Any-map f (c ∷ cs) (inr h) = inr (Any-map f cs h)

-- One of the calls, with what holds of it.
Any-found : {P : Call → Type 0} → (cs : List Call) → Any P cs → (c : Call) × P c
Any-found [] h = absurd h
Any-found (c ∷ cs) (inl h) = (c, h)
Any-found (c ∷ cs) (inr h) = Any-found cs h

Any-split :
    (P : Call → Type 0) (f : Call → Bool) (cs : List Call)
    → Any P cs
    → Any (λ c. (f c ≡ true) × P c) cs ⊎ Any (λ c. (f c ≡ false) × P c) cs
Any-split P f [] h = absurd h
Any-split P f (c ∷ cs) (inl h) = elim (Bool-cases (f c)) [
  | inl b ↦ inl (inl (b, h))
  | inr b ↦ inr (inl (b, h))
]
Any-split P f (c ∷ cs) (inr h) = elim (Any-split P f cs h) [
  | inl k ↦ inl (inr k)
  | inr k ↦ inr (inr k)
]

nonempty-empty : (s : String) → nonempty s ≡ false → s ≡ ""
nonempty-empty Text.[] e = refl
nonempty-empty (Text.◌∷◌ c s) e = absurd (cc e)

module _ (ingress_class : String) (t : IngressTemplate) (cs : List Call) where
  -- A step keeps the calls.
  AllOf-Advance :
      {t1 t2 : IngressTemplate} {l l' : List (Call × Stage)}
      → Advance ingress_class t1 l t2 l'
      → AllOf cs l
      → AllOf cs l'
  AllOf-Advance (store t1 c l) (m, all) = (m, all)
  AllOf-Advance (test t1 c l) (m, all) = (m, all)
  AllOf-Advance (finish t1 c outcome l) (m, all) = (m, all)
  AllOf-Advance (other x a) (m, all) = (m, AllOf-Advance a all)

  provider-Advance :
      {t1 t2 : IngressTemplate} {l l' : List (Call × Stage)}
      → Advance ingress_class t1 l t2 l'
      → (p : String) × (t1 ≡ record t { dns01_provider = p })
      → (p : String) × (t2 ≡ record t { dns01_provider = p })
  provider-Advance (store t1 c l) (p, e) = (c.dns_provider, ap (λ x. with_provider x c) e)
  provider-Advance (test t1 c l) h = h
  provider-Advance (finish t1 c outcome l) h = h
  provider-Advance (other x a) h = provider-Advance a h

  -- After a step some call has stored its provider.
  source-Advance :
      {t1 t2 : IngressTemplate} {l l' : List (Call × Stage)}
      → Advance ingress_class t1 l t2 l'
      → (p : String) × (t1 ≡ record t { dns01_provider = p })
      → AllOf cs l
      → AllCalled l ⊎ IsOf t cs t1
      → IsOf t cs t2
  source-Advance (store t1 c l) (p, e) (m, all) h =
      Any-map (λ c' same. ap (λ x. with_provider x c) e ∙ ap (with_provider t) (sym same)) cs m
  source-Advance (test t1 c l) k all (inl h) = absurd h
  source-Advance (test t1 c l) k all (inr h) = h
  source-Advance (finish t1 c outcome l) k all (inl h) = absurd h
  source-Advance (finish t1 c outcome l) k all (inr h) = h
  source-Advance (other (c, called) a) k (m, all) (inl h) = source-Advance a k all (inl h)
  source-Advance (other (c, stored) a) k (m, all) (inl h) = absurd h
  source-Advance (other (c, tested b) a) k (m, all) (inl h) = absurd h
  source-Advance (other (c, built i) a) k (m, all) (inl h) = absurd h
  source-Advance (other x a) k (m, all) (inr h) = source-Advance a k all (inr h)

  -- A call that tested and reads the provider now.
  build-IsMade :
      (t1 : IngressTemplate) (c : Call) (outcome : Bool)
      → IsOf t cs t1
      → IsMade ingress_class t cs c (tested outcome)
      → IsMade ingress_class t cs c (built (build ingress_class t1 c outcome))
  unfolding create_control_ingress annotation_pairs
  build-IsMade t1 c false h m =
      let (c', e) = Any-found cs h in inl (Any-map (λ d n. rw (e, n) refl) cs m)
  build-IsMade t1 c true h m = elim (Any-split _ (λ (d : Call). nonempty d.dns_provider) cs h) [
    | inl found ↦ inl (Any-map (λ d (n, e). rw (e, n) refl) cs found)
    | inr found ↦ inr (
      (m, Any-map (λ d (n, e). nonempty-empty d.dns_provider n) cs found),
      let (d, (n, e)) = Any-found cs found in rw (e, nonempty-empty d.dns_provider n) refl,
    )
  ]

  made-Advance :
      {t1 t2 : IngressTemplate} {l l' : List (Call × Stage)}
      → Advance ingress_class t1 l t2 l'
      → IsOf t cs t2
      → AllMade ingress_class t cs l
      → AllMade ingress_class t cs l'
  unfolding create_control_ingress
  made-Advance (store t1 c l) h (m, all) = (tt, all)
  made-Advance (test t1 c l) h (m, all) =
      (Any-map (λ c' e. ap (λ (x : IngressTemplate). nonempty x.dns01_provider) (sym e)) cs h, all)
  made-Advance (finish t1 c outcome l) h (m, all) = (build-IsMade t1 c outcome h m, all)
  made-Advance (other x a) h (m, all) = (m, made-Advance a h all)

  Fits-Advance :
      {t1 t2 : IngressTemplate} {l l' : List (Call × Stage)}
      → Advance ingress_class t1 l t2 l'
      → Fits ingress_class t cs t1 l
      → Fits ingress_class t cs t2 l'
  Fits-Advance a f =
      let known = source-Advance a f.provider f.calls f.source in
      record {
        provider = provider-Advance a f.provider;
        source = inr known;
        made = made-Advance a known f.made;
        calls = AllOf-Advance a f.calls;
      }

  pub Fits-Advances :
      {t1 : IngressTemplate} {l : List (Call × Stage)} {t2 : IngressTemplate}
      {l' : List (Call × Stage)}
      → Advances ingress_class t1 l t2 l'
      → Fits ingress_class t cs t1 l
      → Fits ingress_class t cs t2 l'
  Fits-Advances no_step f = f
  Fits-Advances (step run a) f = Fits-Advance a (Fits-Advances run f)

AllCalled-start : (cs : List Call) → AllCalled (all_called cs)
AllCalled-start [] = tt
AllCalled-start (c ∷ cs) = AllCalled-start cs

AllMade-start :
    (ingress_class : String) (t : IngressTemplate) (cs ds : List Call)
    → AllMade ingress_class t cs (all_called ds)
AllMade-start ingress_class t cs [] = tt
AllMade-start ingress_class t cs (d ∷ ds) = (tt, AllMade-start ingress_class t cs ds)

-- The calls of a list are among those of a longer one.
AllOf-weaken : (c : Call) (cs : List Call) (l : List (Call × Stage)) → AllOf cs l → AllOf (c ∷ cs) l
AllOf-weaken c cs [] all = tt
AllOf-weaken c cs ((d, stage) ∷ l) (m, all) = (inr m, AllOf-weaken c cs l all)

AllOf-start : (cs : List Call) → AllOf cs (all_called cs)
AllOf-start [] = tt
AllOf-start (c ∷ cs) = (inl refl, AllOf-weaken c cs (all_called cs) (AllOf-start cs))

pub Fits-start :
    (ingress_class : String) (t : IngressTemplate) (cs : List Call)
    → Fits ingress_class t cs t (all_called cs)
Fits-start ingress_class t cs = record {
  provider = (t.dns01_provider, refl);
  source = inl (AllCalled-start cs);
  made = AllMade-start ingress_class t cs cs;
  calls = AllOf-start cs;
}
