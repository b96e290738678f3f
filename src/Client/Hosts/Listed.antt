-- ===== src/Client/Hosts/Listed.antt =====
-- The loop over the hosts that main.c, web.c and the others run with `hostlist_iter`.
use rmtdos_utils.Prelude.{
  ℕ, zero, suc, ◌+◌, ◌<◌, ◌≤◌, ◌≡◌, ◌⊎◌, inl, inr, refl, ap, ◌∙◌, Option, none, some, List, [], ◌∷◌,
  arith, length, drop, drop-drop, length-drop,
}
use rmtdos_utils.Client.Hosts.{RemoteHost, HostList, iter_from, hostlist_iter}

abbrev prepend : RemoteHost → Option (List RemoteHost) → Option (List RemoteHost)
prepend rh none = none
prepend rh (some rhs) = some (rh ∷ rhs)

-- The hosts that `while (NULL != (rh = hostlist_iter(&iter)))` sees from `iter` on, if it ends
-- within `fuel` calls.
unfoldable pub iterate : ℕ → ℕ → HostList → Option (List RemoteHost)
iterate zero iter hosts = none
iterate (suc fuel) iter hosts =
    let (host, next) = hostlist_iter iter hosts in
    elim host [
      | none ↦ some []
      | some rh ↦ elim next [ none ↦ none | some iter1 ↦ prepend rh (iterate fuel iter1 hosts) ]
    ]

-- The slots that are not empty, in order.
unfoldable pub present : HostList → List RemoteHost
present [] = []
present (none ∷ slots) = present slots
present (some rh ∷ slots) = rh ∷ present slots

-- What one call finds: no more hosts, or the next one, and the iterator behind its slot.
record Finds (i : ℕ) (xs : HostList) (rh : RemoteHost) (k : ℕ) : Type 0 where
  returned : iter_from i xs ≡ (some rh, some (i + suc k))
  inside : k < length xs
  listed : present xs ≡ rh ∷ present (drop (suc k) xs)

iter_from_cases :
    (i : ℕ) (xs : HostList)
    → ((iter_from i xs ≡ (none, none)) × (present xs ≡ []))
      ⊎ ((rh : RemoteHost) × (k : ℕ) × Finds i xs rh k)
unfolding iter_from present
iter_from_cases i [] = inl (refl, refl)
iter_from_cases i (some rh ∷ xs) =
    inr (rh, 0, record { returned = refl; inside = omega arith; listed = refl })
iter_from_cases i (none ∷ xs) = elim (iter_from_cases (i + 1) xs) [
  | inl (ended, empty) ↦ inl (ended, empty)
  | inr (rh, k, found) ↦ inr (
    rh,
    suc k,
    record {
      returned = found.returned ∙ ap (λ m. (some rh, some m)) (omega arith);
      inside = omega (arith, found.inside);
      listed = found.listed;
    },
  )
]

-- The slots that are left after a call that finds a host.
Finds-left :
    (i : ℕ) (hosts : HostList) (rh : RemoteHost) (k : ℕ)
    → Finds i (drop i hosts) rh k
    → (i + suc k ≤ length hosts) × (drop (suc k) (drop i hosts) ≡ drop (i + suc k) hosts)
Finds-left i hosts rh k found =
    (omega (arith, found.inside, length-drop i hosts), drop-drop (suc k) i hosts)

iterate-drop :
    (n i : ℕ) (hosts : HostList)
    → length hosts ≤ n + i
    → iterate (suc n) i hosts ≡ some (present (drop i hosts))
unfolding iterate hostlist_iter
iterate-drop zero i hosts h = elim (iter_from_cases i (drop i hosts)) [
  | inl (ended, empty) ↦ rw (iterate, ended, empty) refl
  | inr (rh, k, found) ↦ absurd (omega (arith, (Finds-left i hosts rh k found).0))
]
iterate-drop (suc n) i hosts h = elim (iter_from_cases i (drop i hosts)) [
  | inl (ended, empty) ↦ rw (iterate, ended, empty) refl
  | inr (rh, k, found) ↦
      let (inside, left) = Finds-left i hosts rh k found in
      let rest = iterate-drop n (i + suc k) hosts (omega arith) in
      rw (iterate, found.returned, found.returned, found.listed, left, rest) refl
]

-- The loop over the hosts ends, after at most one call more than the list has slots, and sees
-- every host of the list, once and in the order of the slots.
pub iterate-present :
    (hosts : HostList) → iterate (suc (length hosts)) 0 hosts ≡ some (present hosts)
iterate-present hosts = iterate-drop (length hosts) 0 hosts (omega arith)
