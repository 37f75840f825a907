-- ===== src/Knowledge/Curation/Checked.antt =====
-- What internal/knowledge/curate.go, ValidateCurated, lets through.
use mathlib.Core.Option.{some-injective}
use agentfab.Prelude.{
  subst, sym, ℕ, ◌≤◌, String, true, false, ◌≡◌, refl, ◌↔◌, ◌⊎◌, ltb, Option, none, some, lookup,
  length, ok, check_each, check_each-All, All-check_each, All-In, In-All, In, arith,
}
use agentfab.Prelude.Int.{◌≤ℤ◌}
use agentfab.Knowledge.{Node, Edge, Graph, has_tag, is_active, is_connected, is_there}
use agentfab.Knowledge.Curation.{
  high_confidence, check_decision, check_confident, check_edge, check_curated, validate_curated,
}
use agentfab.Knowledge.Prune.Pruned.{IsConnected}

-- The curated graph is no larger, has every active node that is a decision or of high confidence, and
-- has both ends of its edges.
abbrev pub IsCuration : (String → String) → ℕ → Graph → Graph → Type 0
IsCuration lower now original curated =
    (length curated.nodes ≤ length original.nodes)
    × ((p : String × Node)
        → In p original.nodes
        → is_active now original p ≡ true
        → (has_tag lower p.1 "decision" ≡ true) ⊎ (high_confidence ≤ℤ p.1.confidence)
        → is_there (lookup p.0 curated.nodes) ≡ true)
    × IsConnected curated

-- The checks of `check_curated`, each passed.
record Passes (lower : String → String) (now : ℕ) (original curated : Graph) : Type 0 where
  size : ltb (length original.nodes) (length curated.nodes) ≡ false
  decisions : check_each (check_decision lower now original curated) original.nodes ≡ ok tt
  confident : check_each (check_confident now original curated) original.nodes ≡ ok tt
  ends : check_each (check_edge curated) curated.edges ≡ ok tt

module _ (lower : String → String) (now : ℕ) where
  module _ (original curated : Graph) where
    check_curated-Passes :
        check_curated lower now original curated ≡ ok tt → Passes lower now original curated
    unfolding check_curated
    check_curated-Passes h = ground arith

    Passes-check_curated :
        Passes lower now original curated → check_curated lower now original curated ≡ ok tt
    unfolding check_curated
    Passes-check_curated p = ground arith

    check_edge_iff : (e : Edge) → check_edge curated e ≡ ok tt ↔ is_connected curated.nodes e ≡ true
    unfolding check_edge
    check_edge_iff e = ground arith

    stays :
        (p : String × Node)
        → check_decision lower now original curated p ≡ ok tt
        → check_confident now original curated p ≡ ok tt
        → is_active now original p ≡ true
        → (has_tag lower p.1 "decision" ≡ true) ⊎ (high_confidence ≤ℤ p.1.confidence)
        → is_there (lookup p.0 curated.nodes) ≡ true
    unfolding check_decision check_confident
    stays p d c a h = ground arith

    check_decision-ok :
        (p : String × Node)
        → (is_active now original p ≡ true
            → (has_tag lower p.1 "decision" ≡ true) ⊎ (high_confidence ≤ℤ p.1.confidence)
            → is_there (lookup p.0 curated.nodes) ≡ true)
        → (check_decision lower now original curated p ≡ ok tt)
          × (check_confident now original curated p ≡ ok tt)
    unfolding check_decision check_confident
    check_decision-ok p h = (ground arith, ground arith)

    Passes-IsCuration : Passes lower now original curated → IsCuration lower now original curated
    Passes-IsCuration p = (
      ground (arith, p.size),
      λ x m a h.
          stays x (All-In _ original.nodes (check_each-All _ _ p.decisions) x m)
            (All-In _ original.nodes (check_each-All _ _ p.confident) x m) a h,
      λ e m. (check_edge_iff e).0 (All-In _ curated.edges (check_each-All _ _ p.ends) e m),
    )

    IsCuration-Passes : IsCuration lower now original curated → Passes lower now original curated
    IsCuration-Passes (size, kept, ends) = record {
      size = ground arith;
      decisions =
          All-check_each _ _ (In-All _ original.nodes (λ x m. (check_decision-ok x (kept x m)).0));
      confident =
          All-check_each _ _ (In-All _ original.nodes (λ x m. (check_decision-ok x (kept x m)).1));
      ends = All-check_each _ _ (In-All _ curated.edges (λ e m. (check_edge_iff e).1 (ends e m)));
    }

  -- A curated graph passes exactly if both graphs are there and it is a curation of the original.
  pub validate_curated-IsCuration :
      (original curated : Option Graph)
      → validate_curated lower now original curated ≡ ok tt
        ↔ (o : Graph) × (c : Graph) × (original ≡ some o)
          × (curated ≡ some c)
          × IsCuration lower now o c
  unfolding validate_curated
  validate_curated-IsCuration none curated = (λ h. absurd (cc h), λ (o, c, e, _, _). absurd (cc e))
  validate_curated-IsCuration (some o) none = (λ h. absurd (cc h), λ (o, c, _, e, _). absurd (cc e))
  validate_curated-IsCuration (some o) (some c) = (
    λ h. (o, c, refl, refl, Passes-IsCuration o c (check_curated-Passes o c h)),
    λ (x, y, e, f, q). Passes-check_curated o c (
        IsCuration-Passes o c (
          subst (λ a. IsCuration lower now a c) (sym (some-injective o x e))
            (subst (λ b. IsCuration lower now x b) (sym (some-injective c y f)) q))),
  )
