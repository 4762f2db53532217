-- ===== src/Health/Shutdown.antt =====
-- What the end of `main` in cmd/controlplane/main.go leaves when it terminates all sandboxes.
use sandboxed_ai_agent_orche.Prelude.{
  ℕ, ◌≡◌, refl, ◌∙◌, inl, inr, Bool, true, false, Option, none, some, List, [], ◌∷◌, Bool-cases,
}
use sandboxed_ai_agent_orche.Prelude.Text.{Text}
use sandboxed_ai_agent_orche.Prelude.Table.{lookup}
use sandboxed_ai_agent_orche.Supervisor.{
  Instance, Config, World, get, instances, terminate, reap_loop,
}
use sandboxed_ai_agent_orche.Supervisor.Ownership.Steps.{OwnedWorld, reap_loop-Owned}
use sandboxed_ai_agent_orche.Health.{shut_down_loop, shut_down}
use sandboxed_ai_agent_orche.Health.Round.{Tracked, survivor, reap_loop_lem, dead_in-Tracked}

abbrev nobody : ℕ → Bool
nobody pid = false

shut_down_loop_lem :
    (cfg : Config) (is : List Instance) (w : World)
    → shut_down_loop cfg is w ≡ (reap_loop cfg nobody is w).1
unfolding shut_down_loop reap_loop
shut_down_loop_lem cfg [] w = refl
shut_down_loop_lem cfg (i ∷ is) w = shut_down_loop_lem cfg is (terminate cfg w i.id).1

no_survivor : (o : Option Instance) → survivor nobody o ≡ none
no_survivor none = refl
no_survivor (some i) = refl

-- When the control plane stops and is told to terminate all sandboxes, which are tracked once and under
-- their own ids and hold the CIDs in use, nothing is tracked any more and no CID is in use.
pub shut_down-Clear :
    (cfg : Config) (w : World)
    → Tracked w.inst
    → OwnedWorld w
    → ((id : Text) → get (shut_down true cfg w) id ≡ none)
      × ((c : ℕ) → (shut_down true cfg w).cids.used c ≡ false)
unfolding shut_down get
shut_down-Clear cfg w tracked owned =
    let w' = (reap_loop cfg nobody (instances w.inst) w).1 in
    let gone : (id : Text) → lookup id w'.inst ≡ none = λ id.
      reap_loop_lem cfg nobody (instances w.inst) w id
      ∙ dead_in-Tracked nobody id w.inst tracked
      ∙ no_survivor (lookup id w.inst) in
    let free_again : (c : ℕ) → w'.cids.used c ≡ false = λ c. elim (Bool-cases (w'.cids.used c)) [
      | inr e ↦ e
      | inl e ↦
          let (id, i, here, own) =
            (reap_loop-Owned cfg nobody (instances w.inst) w owned).held c e in
          absurd (cc (here, gone id))
    ] in
    rw (shut_down_loop_lem cfg (instances w.inst) w) (gone, free_again)
