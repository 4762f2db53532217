-- ===== src/Gate/Classify.antt =====
-- `Classify` of internal/hitl/gate.go.
use sandboxed_ai_agent_orche.Prelude.{
  ◌≡◌, refl, ap, ◌⊎◌, inl, inr, true, false, List, [], ◌∷◌, ◌++◌, arith, All,
}
use sandboxed_ai_agent_orche.Prelude.Text.{Text}
use sandboxed_ai_agent_orche.Gate.{
  benign, sensitive, ClassifierRule, Gate, excluded, first_match, classify,
}

-- The pattern matches and what the rule leaves alone does not.
abbrev pub Fires : Text → ClassifierRule → Type 0
Fires lower rule = (rule.re lower ≡ true) × (excluded rule.exclude lower ≡ false)

abbrev pub Silent : Text → ClassifierRule → Type 0
Silent lower rule = ¬ Fires lower rule

Fires-cases : (lower : Text) (rule : ClassifierRule) → Fires lower rule ⊎ Silent lower rule
Fires-cases lower rule = ground arith

first_match-Fires :
    (rule : ClassifierRule) (rules : List ClassifierRule) (lower : Text)
    → Fires lower rule
    → first_match (rule ∷ rules) lower ≡ (sensitive, rule.reason)
unfolding first_match
first_match-Fires rule rules lower f = ground arith

first_match-Silent :
    (rule : ClassifierRule) (rules : List ClassifierRule) (lower : Text)
    → Silent lower rule
    → first_match (rule ∷ rules) lower ≡ first_match rules lower
unfolding first_match
first_match-Silent rule rules lower f = ground arith

-- The first rule that fires, after rules that do not.
pub record FirstFiring (rules : List ClassifierRule) (lower : Text) (reason : Text) : Type 0 where
  pub before : List ClassifierRule
  pub rule : ClassifierRule
  pub after : List ClassifierRule
  pub split : rules ≡ before ++ (rule ∷ after)
  pub silent : All (Silent lower) before
  pub fires : Fires lower rule
  pub why : rule.reason ≡ reason

first_match_cases :
    (rules : List ClassifierRule) (lower : Text)
    → ((first_match rules lower ≡ (benign, [])) × All (Silent lower) rules)
      ⊎ (((first_match rules lower).0 ≡ sensitive)
          × FirstFiring rules lower (first_match rules lower).1)
first_match_cases [] lower = inl (unfold first_match in refl, tt)
first_match_cases (x ∷ rules) lower = elim (Fires-cases lower x) [
  | inl f ↦ rw (first_match-Fires x rules lower f) (
      inr (
        refl,
        record {
          before = [];
          rule = x;
          after = rules;
          split = refl;
          silent = tt;
          fires = f;
          why = refl;
        },
      ))
  | inr n ↦ rw (first_match-Silent x rules lower n) (elim (first_match_cases rules lower) [
    | inl (e, h) ↦ inl (e, (n, h))
    | inr (e, h) ↦ inr (
      e,
      record {
        before = x ∷ h.before;
        rule = h.rule;
        after = h.after;
        split = ap (◌∷◌ x) h.split;
        silent = (n, h.silent);
        fires = h.fires;
        why = h.why;
      },
    )
  ])
]

-- A script is either benign, with no reason given, and then no rule fires on its lower-cased text;
-- or it is sensitive, with the reason of the first rule that fires.
pub classify_cases :
    (to_lower : Text → Text) (g : Gate) (script : Text)
    → ((classify to_lower g script ≡ (benign, [])) × All (Silent (to_lower script)) g.rules)
      ⊎ (((classify to_lower g script).0 ≡ sensitive)
          × FirstFiring g.rules (to_lower script) (classify to_lower g script).1)
unfolding classify
classify_cases to_lower g script = first_match_cases g.rules (to_lower script)
