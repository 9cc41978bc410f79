-- ===== src/Plans/Normal.antt =====
-- What NormalizeAccountPlans gives.
use airgate_sdk.Prelude.{
  Result-cases, ok-injective, ok, err, String, ◌+◌, ◌≡◌, refl, sym, ap, ◌∙◌, subst, ◌⊎◌, inl, inr,
  true, false, List, [], ◌∷◌, ◌++◌, map, length, length-append, All, All-append, arith,
}
use text.Mathlib.Text.{◌==◌}
use airgate_sdk.Plans.{
  AccountPlan, PlanTexts, PlanError, normalize_plan, normalize_loop, normalize_account_plans,
}
use airgate_sdk.Plans.Distinct.{IsDistinct, IsDistinct-concat}
use airgate_sdk.Plans.Accepted.{IsNormalPlan, IsAdded, normalize_plan-IsAdded}

module _ (lib : PlanTexts) where
  -- The plans that a platform may declare together.
  pub record IsNormal (credential : String) (plans : List AccountPlan) : Type 0 where
    pub each : All (IsNormalPlan lib credential) plans
    pub distinct_keys : IsDistinct (map (λ p. lib.bare p.key) plans)

  -- What the loop keeps.
  record IsSoFar (keys : List String) (credential : String) (result : List AccountPlan)
      : Type 0 where
    pub the_keys : keys ≡ map (λ p. lib.bare p.key) result
    pub normal : IsNormal credential result
    pub begun : (result ≡ []) ⊎ ((credential == "") ≡ false)

  map-concat :
      (result : List AccountPlan) (p : AccountPlan)
      → map (λ q. lib.bare q.key) (result ++ p ∷ [])
        ≡ map (λ q. lib.bare q.key) result ++ lib.bare p.key ∷ []
  map-concat [] p = refl
  map-concat (q ∷ result) p = ap (λ ks. lib.bare q.key ∷ ks) (map-concat result p)

  same_each :
      (credential c : String) (result : List AccountPlan)
      → (result ≡ []) ⊎ ((credential == "") ≡ false)
      → ((credential == "") ≡ true) ⊎ (credential ≡ c)
      → All (IsNormalPlan lib credential) result
      → All (IsNormalPlan lib c) result
  same_each credential c result begun (inr same) each =
      subst (λ k. All (IsNormalPlan lib k) result) same each
  same_each credential c result (inl empty) (inl blank) each =
      subst (All (IsNormalPlan lib c)) (sym empty) _
  same_each credential c result (inr text) (inl blank) each = absurd (cc (sym blank ∙ text))

  step-IsSoFar :
      (keys : List String) (credential : String) (result : List AccountPlan) (p : AccountPlan)
      → IsSoFar keys credential result
      → IsAdded lib keys credential p
      → IsSoFar (keys ++ lib.bare p.key ∷ []) p.credential_key (result ++ p ∷ [])
  step-IsSoFar keys credential result p s a =
      let more = ap (λ ks. ks ++ lib.bare p.key ∷ []) s.the_keys ∙ sym (map-concat result p) in
      let distinct = subst IsDistinct (sym s.the_keys) s.normal.distinct_keys in
      record {
        the_keys = more;
        normal = record {
          each =
              All-append (IsNormalPlan lib p.credential_key) result (p ∷ [])
                (same_each credential p.credential_key result s.begun a.same_credential
                  s.normal.each)
                (a.normal, _);
          distinct_keys =
              subst IsDistinct more (IsDistinct-concat keys (lib.bare p.key) distinct a.fresh);
        };
        begun = inr a.has_credential;
      }

  loop_failed :
      (plan : AccountPlan) (plans : List AccountPlan) (keys : List String) (credential : String)
      (result : List AccountPlan) (x : PlanError)
      → normalize_plan lib keys credential plan ≡ err x
      → normalize_loop lib (plan ∷ plans) keys credential result ≡ err x
  unfolding normalize_loop
  loop_failed plan plans keys credential result x e = rw (e, normalize_loop) refl

  loop_next :
      (plan : AccountPlan) (plans : List AccountPlan) (keys : List String) (credential : String)
      (result : List AccountPlan) (p : AccountPlan)
      → normalize_plan lib keys credential plan ≡ ok p
      → normalize_loop lib (plan ∷ plans) keys credential result
        ≡ normalize_loop lib plans (keys ++ lib.bare p.key ∷ []) p.credential_key (result ++ p ∷ [])
  unfolding normalize_loop
  loop_next plan plans keys credential result p e = rw (e, normalize_loop) refl

  normalize_loop-IsNormal :
      (plans : List AccountPlan) (keys : List String) (credential : String)
      (result out : List AccountPlan)
      → IsSoFar keys credential result
      → normalize_loop lib plans keys credential result ≡ ok out
      → ((c : String) × IsNormal c out) × (length out ≡ length result + length plans)
  unfolding normalize_loop
  normalize_loop-IsNormal [] keys credential result out s e =
      let same : result ≡ out = ok-injective e in
      ((credential, subst (IsNormal credential) same s.normal), omega (arith, ap length same))
  normalize_loop-IsNormal (plan ∷ plans) keys credential result out s e =
      elim (Result-cases (normalize_plan lib keys credential plan)) [
        | inl (x, bad) ↦ absurd (cc (sym (loop_failed plan plans keys credential result x bad) ∙ e))
        | inr (p, good) ↦
            let (normal, count) =
              normalize_loop-IsNormal plans (keys ++ lib.bare p.key ∷ []) p.credential_key
                (result ++ p ∷ []) out
                (step-IsSoFar keys credential result p s
                  (normalize_plan-IsAdded lib keys credential plan p good))
                (sym (loop_next plan plans keys credential result p good) ∙ e) in
            (normal, omega (arith, count, length-append result (p ∷ [])))
      ]

  -- The plans that NormalizeAccountPlans gives without an error are as many as were declared. Each
  -- key fits the pattern and is not reserved, and no two are equal but for underscores; all have one
  -- credential key; each mode is known, and each plan has a match, none twice and none blank.
  pub normalize_account_plans-IsNormal :
      (plans out : List AccountPlan)
      → normalize_account_plans lib plans ≡ ok out
      → ((c : String) × IsNormal c out) × (length out ≡ length plans)
  unfolding normalize_account_plans
  normalize_account_plans-IsNormal plans out e =
      let (normal, count) =
        normalize_loop-IsNormal plans [] "" [] out
          (record {
            the_keys = refl;
            normal = record { each = _; distinct_keys = _ };
            begun = inl refl;
          })
          e in
      (normal, omega (arith, count))
