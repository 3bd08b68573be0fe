-- ===== src/Core/Permissions/Access.antt =====
-- The list of visible tasks and the check of one task (backend/app/tasks/access.py).
use restock_system.Core.Permissions.{
  Access, visible_in, AccessResult, ensure_task_access, visible_task_job_names,
  task_view_permissions, granted, forbidden, has_any_task_permission, task_manage_permissions,
}
use restock_system.Common.{
  List, Bool, Text, true, elem, IsDistinct, false, keys, ◌≡◌, ◌∷◌, arith, Bool-cases, text_eq, ◌==◌,
  [], refl, inl, inr, if◌then◌else◌, all, get, any-of_elem, subst, ◌∙◌, if-cases,
}

abbrev pub is_granted : AccessResult → Bool
is_granted granted = true
is_granted forbidden = false

visible_in-absent :
    (mapping : Access) (permissions : List Text) (job : Text)
    → elem job (keys mapping) ≡ false
    → elem job (visible_in mapping permissions) ≡ false
unfolding visible_in
visible_in-absent [] permissions job h = refl
visible_in-absent ((name, required) ∷ mapping) permissions job h =
    ground (arith, visible_in-absent mapping permissions job, h)

visible_in-ensure :
    (mapping : Access) (permissions : List Text) (job : Text)
    → IsDistinct (keys mapping)
    → elem job (visible_in mapping permissions)
      ≡ is_granted (ensure_task_access job permissions mapping)
unfolding visible_in ensure_task_access
visible_in-ensure [] permissions job h = refl
visible_in-ensure ((name, required) ∷ mapping) permissions job h = elim (Bool-cases (name == job)) [
  | inl q ↦
      rw (q, get)
        (at_head (visible_in mapping permissions) (has_any_task_permission permissions required) q (
          visible_in-absent mapping permissions job
            (subst (λ n. elem n (keys mapping) ≡ false) ((text_eq.same_iff name job).0 q) h.0)))
  | inr q ↦
      rw (q, get)
        (past_head (visible_in mapping permissions) (has_any_task_permission permissions required) q
          ∙ visible_in-ensure mapping permissions job h.1)
]
  where
    at_head :
        (rest : List Text) (b : Bool)
        → (name == job) ≡ true
        → elem job rest ≡ false
        → elem job (if b then name ∷ rest else rest) ≡ is_granted (if b then granted else forbidden)
    at_head rest true q absent = ground (arith, q)
    at_head rest false q absent = absent

    past_head :
        (rest : List Text) (b : Bool)
        → (name == job) ≡ false
        → elem job (if b then name ∷ rest else rest) ≡ elem job rest
    past_head rest true q = ground (arith, q)
    past_head rest false q = refl

-- A task is among the visible ones exactly when the check against the view permissions grants it.
pub visible_task_job_names-ensure :
    (permissions : List Text) (job : Text)
    → elem job (visible_task_job_names permissions)
      ≡ is_granted (ensure_task_access job permissions task_view_permissions)
unfolding visible_task_job_names
visible_task_job_names-ensure permissions job =
    visible_in-ensure task_view_permissions permissions job (
      refl,
      (refl, (refl, (refl, (refl, (refl, (refl, (refl, (refl, (refl, (refl, (refl, tt))))))))))),
    )

-- The second asks for some of what the first asks for, task by task.
abbrev pub Narrows : Access → Access → Type 0
Narrows [] [] = Unit
Narrows ((job, view) ∷ views) ((job2, manage) ∷ manages) =
    (job ≡ job2) × (all (λ code. elem code view) manage ≡ true) × Narrows views manages
Narrows _ _ = ⊥

any-elem_of_all :
    (permissions view manage : List Text)
    → all (λ code. elem code view) manage ≡ true
    → has_any_task_permission permissions manage ≡ true
    → has_any_task_permission permissions view ≡ true
unfolding has_any_task_permission
any-elem_of_all permissions view [] h g = cc
any-elem_of_all permissions view (code ∷ manage) h g = ground (
  arith,
  any-of_elem (λ c. elem c permissions) code view,
  any-elem_of_all permissions view manage,
  h,
  g,
)

ensure-Narrows :
    (views manages : Access) (permissions : List Text) (job : Text)
    → Narrows views manages
    → ensure_task_access job permissions manages ≡ granted
    → ensure_task_access job permissions views ≡ granted
unfolding ensure_task_access
ensure-Narrows [] [] permissions job n h = cc
ensure-Narrows [] (m ∷ manages) permissions job n h = absurd n
ensure-Narrows (v ∷ views) [] permissions job n h = absurd n
ensure-Narrows ((name, view) ∷ views) ((name2, manage) ∷ manages) permissions job n h =
    elim (Bool-cases (name == job)) [
      | inl q ↦
          let q2 = subst (λ m. (m == job) ≡ true) n.0 q in
          let asked = rw (q2, get) at h in
          rw (q, get)
            (elim (if-cases (has_any_task_permission permissions manage) granted forbidden asked) [
              | inl (may, _) ↦ rw (any-elem_of_all permissions view manage n.1 may) refl
              | inr (_, stop) ↦ cc
            ])
      | inr q ↦
          let q2 = subst (λ m. (m == job) ≡ false) n.0 q in
          rw (q, get) (ensure-Narrows views manages permissions job n.2 (rw (q2, get) at h))
    ]

every_job : Narrows task_view_permissions task_manage_permissions
every_job = (
  refl,
  refl,
  (
    refl,
    refl,
    (
      refl,
      refl,
      (
        refl,
        refl,
        (
          refl,
          refl,
          (
            refl,
            refl,
            (refl, refl, (refl, refl, (refl, refl, (refl, refl, (refl, refl, (refl, refl, tt)))))),
          ),
        ),
      ),
    ),
  ),
)

-- Who may manage a task may see it.
pub manage-view :
    (permissions : List Text) (job : Text)
    → ensure_task_access job permissions task_manage_permissions ≡ granted
    → ensure_task_access job permissions task_view_permissions ≡ granted
manage-view permissions job h =
    ensure-Narrows task_view_permissions task_manage_permissions permissions job every_job h
