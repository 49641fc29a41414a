-- ===== src/Readiness/Laws.antt =====
-- What `IsReady` and the reconciler rely on in the condition package of lib-common.
use osls_operator.Base.{String, ◌≡◌, true, false, ◌==◌, List, [], ◌∷◌, if◌then◌else◌}
use osls_operator.Api.Conditions.{Condition, openstack_lightspeed_ready_condition}
use osls_operator.Platform.{Platform, ConditionLib}
use osls_operator.Platform.Exec.{World}

module _ (C : ConditionLib) where
  -- `IsTrue` sees the condition that was set last for its type; `Init` starts from the conditions
  -- that it is given.
  pub record IsLawful : Type 0 where
    pub is_true-set :
        (cs : List Condition) (c : Condition) (t : String)
        → C.is_true (C.set cs c) t ≡ (if c.type == t then c.status == "True" else C.is_true cs t)
    pub is_true-mark_true :
        (cs : List Condition) (t message u : String)
        → C.is_true (C.mark_true cs t message) u ≡ (if t == u then true else C.is_true cs u)
    pub is_true-mark_unknown :
        (cs : List Condition) (t reason message u : String)
        → C.is_true (C.mark_unknown cs t reason message) u
          ≡ (if t == u then false else C.is_true cs u)
    pub is_true-init :
        (cs : List Condition) (t reason message : String)
        → C.is_true (C.init cs (C.create_list (C.unknown_condition t reason message ∷ []))) t
          ≡ false
    pub is_true-restore :
        (cs saved : List Condition) (t : String)
        → C.is_true (C.restore_last_transition_times cs saved) t ≡ C.is_true cs t
    pub type-true_condition : (t message : String) → (C.true_condition t message).type ≡ t
    pub type-false_condition :
        (t reason severity message : String)
        → (C.false_condition t reason severity message).type ≡ t
    pub status-false_condition :
        (t reason severity message : String)
        → ((C.false_condition t reason severity message).status == "True") ≡ false
    pub type-mirror : (cs : List Condition) (t : String) → (C.mirror cs t).type ≡ t
    -- the overall condition is not the operator's own
    pub ready-other : (C.ready_condition == openstack_lightspeed_ready_condition) ≡ false

-- The conditions do not say that the instance is ready.
abbrev pub Unready : Platform → List Condition → Type 0
Unready P cs = P.conditions.is_true cs openstack_lightspeed_ready_condition ≡ false

abbrev pub UnreadyWorld : (P : Platform) → World P.State → Type 0
UnreadyWorld P w = Unready P w.instance.status.conditions
