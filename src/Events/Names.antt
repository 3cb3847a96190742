-- ===== src/Events/Names.antt =====
-- The semaphore that a node's number stands for.
use netcomm.Prelude.{
  ℕ, ◌^◌, ◌<◌, ◌≡◌, ◌≢◌, sym, ◌∙◌, Option, some, List, Option-cases, inl, inr, ap, false,
  Bool-cases, ◌==◌, int_text_injective, codes, arith,
}
use mathlib.Core.List.{append_cancel_left}
use netcomm.Types.{NodeId}
use netcomm.Events.Linux
use netcomm.Events.Windows
use netcomm.Events.Windows.{is_empty_text}

pub linux_name_injective :
    (i j : NodeId) → i < 2 ^ 32 → j < 2 ^ 32 → Linux.name i ≡ Linux.name j → i ≡ j
unfolding Linux.name
linux_name_injective i j li lj h =
    int_text_injective i j li lj (append_cancel_left (codes "/eroil.evt.") _ _ h)

pub windows_name_injective :
    (i j : NodeId) → i < 2 ^ 32 → j < 2 ^ 32 → Windows.name i ≡ Windows.name j → i ≡ j
unfolding Windows.name
windows_name_injective i j li lj h =
    int_text_injective i j li lj (append_cancel_left (codes "Local\\eroil.evt.") _ _ h)

-- What a semaphore that was opened stands for.
linux_opened :
    (id : NodeId) (os : List ℕ → Option ℕ)
    → (Linux.new_named id os).m_sem ≢ 0
    → os (Linux.name id) ≡ some (Linux.new_named id os).m_sem
unfolding Linux.new_named Linux.open_named Linux.name
linux_opened id os ne = elim (Option-cases (os (Linux.name id))) [
  | inl e ↦ absurd (ne (rw e))
  | inr (a, e) ↦ rw e
]

windows_opened :
    (id : NodeId) (widen : List ℕ → List ℕ) (os : List ℕ → ℕ)
    → (Windows.new_named id widen os).m_sem ≢ 0
    → (is_empty_text (widen (Windows.name id)) ≡ false)
      × (os (widen (Windows.name id)) ≡ (Windows.new_named id widen os).m_sem)
unfolding Windows.new_named Windows.open_named
windows_opened id widen os ne = elim (Bool-cases (is_empty_text (widen (Windows.name id)))) [
  | inl e ↦ absurd (ne (ground (arith, e)))
  | inr e ↦ elim (Bool-cases (os (widen (Windows.name id)) == 0)) [
    | inl z ↦ absurd (ne (ground (arith, e, z)))
    | inr nz ↦ (e, ground (arith, e, nz))
  ]
]

-- The semaphores of two different nodes are never the same one on Linux, if they are opened, where
-- the system gives different semaphores for different names.
pub new_named-apart :
    (i j : NodeId) (os : List ℕ → Option ℕ)
    → i < 2 ^ 32
    → j < 2 ^ 32
    → ((n m : List ℕ) (a : ℕ) → os n ≡ some a → os m ≡ some a → n ≡ m)
    → i ≢ j
    → (Linux.new_named i os).m_sem ≢ 0
    → (Linux.new_named i os).m_sem ≢ (Linux.new_named j os).m_sem
new_named-apart i j os li lj by_name other ne e = other (
    linux_name_injective i j li lj (
      by_name _ _ (Linux.new_named i os).m_sem (linux_opened i os ne)
        (linux_opened j os (λ z. ne (e ∙ z)) ∙ ap some (sym e))))

-- The same on Windows, where moreover the conversion of a name, if it succeeds, tells names apart.
pub new_named-apart_on_windows :
    (i j : NodeId) (widen : List ℕ → List ℕ) (os : List ℕ → ℕ)
    → i < 2 ^ 32
    → j < 2 ^ 32
    → ((n m : List ℕ) → is_empty_text (widen n) ≡ false → widen n ≡ widen m → n ≡ m)
    → ((n m : List ℕ) → os n ≢ 0 → os n ≡ os m → n ≡ m)
    → i ≢ j
    → (Windows.new_named i widen os).m_sem ≢ 0
    → (Windows.new_named i widen os).m_sem ≢ (Windows.new_named j widen os).m_sem
new_named-apart_on_windows i j widen os li lj wide by_name other ne e =
    let (full, at_i) = windows_opened i widen os ne in
    let (_, at_j) = windows_opened j widen os (λ z. ne (e ∙ z)) in
    other (
      windows_name_injective i j li lj
        (wide _ _ full (by_name _ _ (λ z. ne (sym at_i ∙ z)) (at_i ∙ e ∙ sym at_j))))
