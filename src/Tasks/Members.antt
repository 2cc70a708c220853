-- ===== src/Tasks/Members.antt =====
-- The members of tasks that the steps of kernel/kern/task.c update_task, and those that they keep.
use micro.Prelude.{
  ℕ, ◌≡◌, ◌≢◌, refl, sym, ap, subst, ◌∙◌, Option, none, some, List, [], ◌∷◌, ◌++◌, map, length,
  drop, ◌+◌, ◌==◌, put, put_self, put_ne, append_assoc, append-nil, Bool-cases, inl, inr, arith,
}
use micro.Tasks.{Process, Tasks, update_task, add_child, adopt, close_all}

-- A update_task of another member, of the task itself, and of another task.
module _ {ℓ} {A : Type ℓ} (member : Process → A) where
  pub update_task-keeps :
      (s : Tasks) (a b : ℕ) (f : Process → Process)
      → ((x : Process) → member (f x) ≡ member x)
      → member ((update_task s a f).tasks b) ≡ member (s.tasks b)
  unfolding update_task
  update_task-keeps s a b f same = elim (Bool-cases (a == b)) [
    | inl e ↦
        let q : a ≡ b = ground arith in
        ap member (
          subst (λ c. put s.tasks a (f (s.tasks a)) c ≡ f (s.tasks a)) q
            (put_self s.tasks a (f (s.tasks a))))
        ∙ same (s.tasks a)
        ∙ ap (λ c. member (s.tasks c)) q
    | inr e ↦ ap member (put_ne s.tasks a b (f (s.tasks a)) (λ q. ground arith))
  ]

  pub adopt-keeps :
      (init b : ℕ) (cs : List ℕ) (s : Tasks)
      → ((c : ℕ) (x : Process) → member (add_child c x) ≡ member x)
      → member ((adopt init cs s).tasks b) ≡ member (s.tasks b)
  unfolding adopt
  adopt-keeps init b [] s same = refl
  adopt-keeps init b (c ∷ cs) s same =
      adopt-keeps init b cs (update_task s init (add_child c)) same
      ∙ update_task-keeps s init b (add_child c) (same c)

pub update_task_self :
    (s : Tasks) (a : ℕ) (f : Process → Process) → (update_task s a f).tasks a ≡ f (s.tasks a)
unfolding update_task
update_task_self s a f = put_self s.tasks a (f (s.tasks a))

pub update_task_ne :
    (s : Tasks) (a b : ℕ) (f : Process → Process) → a ≢ b → (update_task s a f).tasks b ≡ s.tasks b
unfolding update_task
update_task_ne s a b f ne = put_ne s.tasks a b (f (s.tasks a)) ne

pub adopt-children :
    (init : ℕ) (cs : List ℕ) (s : Tasks)
    → ((adopt init cs s).tasks init).children ≡ (s.tasks init).children ++ cs
unfolding adopt add_child
adopt-children init [] s = sym (append-nil (s.tasks init).children)
adopt-children init (c ∷ cs) s =
    adopt-children init cs (update_task s init (add_child c))
    ∙ ap (λ p. p.children ++ cs) (update_task_self s init (add_child c))
    ∙ append_assoc (s.tasks init).children (c ∷ []) cs

pub adopt-child_count :
    (init : ℕ) (cs : List ℕ) (s : Tasks)
    → ((adopt init cs s).tasks init).child_count ≡ (s.tasks init).child_count + length cs
unfolding adopt add_child
adopt-child_count init [] s = omega arith
adopt-child_count init (c ∷ cs) s =
    adopt-child_count init cs (update_task s init (add_child c))
    ∙ ap (λ p. p.child_count + length cs) (update_task_self s init (add_child c))
    ∙ (omega arith)

pub adopt_ne :
    (init b : ℕ) (cs : List ℕ) (s : Tasks) → init ≢ b → (adopt init cs s).tasks b ≡ s.tasks b
unfolding adopt
adopt_ne init b [] s ne = refl
adopt_ne init b (c ∷ cs) s ne =
    adopt_ne init b cs (update_task s init (add_child c)) ne
    ∙ update_task_ne s init b (add_child c) ne

pub drop-length : (cs : List ℕ) → drop (length cs) cs ≡ []
drop-length [] = refl
drop-length (c ∷ cs) = drop-length cs

pub adopt-closed :
    (init : ℕ) (cs : List ℕ) (s : Tasks)
    → ((adopt init cs s).closed ≡ s.closed) × ((adopt init cs s).ready ≡ s.ready)
unfolding adopt update_task
adopt-closed init [] s = (refl, refl)
adopt-closed init (c ∷ cs) s = adopt-closed init cs (update_task s init (add_child c))

pub close_all-fds : (fds : List (Option ℕ)) → (close_all fds).1 ≡ map (λ f. none) fds
unfolding close_all
close_all-fds [] = refl
close_all-fds (none ∷ fds) = ap (none ∷◌) (close_all-fds fds)
close_all-fds (some f ∷ fds) = ap (none ∷◌) (close_all-fds fds)
