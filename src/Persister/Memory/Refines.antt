-- ===== src/Persister/Memory/Refines.antt =====
-- The memory store implements the registry, call by call and over whole histories, but for `Cleanup`:
-- that of the memory store drops the persistent communities instead of the ephemeral ones.
use mathlib.Core.Path.{ap₂, subst}
use weron.Prelude.{
  Bool-cases, Option-cases, Result, ok, err, ℕ, String, ◌≡◌, refl, inl, inr, Bool, true, false,
  none, some, List, [], ◌∷◌, ◌++◌, arith, eq_iff,
}
use weron.Prelude.Int64.{ℤ, pos, increment, decrement, is_positive}
use weron.Persister.{Error, Bcrypt}
use weron.Persister.Registry.{
  Registry, put, join, create, leave, drop_entry, Call, adds, removes, creates, deletes, cleans,
  is_clean, NoCleanup, step, run, Represents,
}
use weron.Persister.Memory.{
  Row, Store, find, with_clients, set_clients, without, new_row, add_clients_to_community,
  create_persistent_community, remove_client_from_community, cleanup, delete_community,
}
use weron.Persister.Memory.Finds.{
  find-append, find-set_clients, find-without, without_absent, count_matching-find,
}
use weron.Persister.Memory.Distinct.{set_clients-Distinct, without-Distinct, append-Distinct}

-- `CreatePersistentCommunity` returns the community; the contract has its error only.
abbrev pub outcome {ℓ} : {A : Type ℓ} → Result Error A → Result Error (Unit {0})
outcome (ok a) = ok tt
outcome (err e) = err e

unfoldable pub call_store : Bcrypt → Call → Store → Store × Result Error (Unit {0})
call_store b (adds salt k password upsert) p = add_clients_to_community b salt k password upsert p
call_store b (removes k) p = remove_client_from_community k p
call_store b (creates salt k password) p =
    let (p', r) = create_persistent_community b salt k password p in (p', outcome r)
call_store b (deletes k) p = delete_community k p
call_store b cleans p = (cleanup p, ok tt)

unfoldable pub run_store : Bcrypt → List Call → Store → Store × List (Result Error (Unit {0}))
run_store b [] p = (p, [])
run_store b (c ∷ cs) p =
    let (p', r) = call_store b c p in let (p'', rs) = run_store b cs p' in (p'', r ∷ rs)

abbrev Agree : Store × Result Error (Unit {0}) → Registry × Result Error (Unit {0}) → Type 0
Agree (p, r) (m, s) = Represents p m × (r ≡ s)

module _ {p : Store} {m : Registry} (h : Represents p m) where
  put-none :
      (k : String)
      → find k p ≡ none
      → (c : Row) → c.id ≡ k
      → Represents (p ++ c ∷ []) (put k (some c) m)
  unfolding find
  put-none k e c i = record {
    distinct = append-Distinct p c h.distinct (rw i e);
    agrees = λ j. ground (arith, find-append j p (c ∷ []), eq_iff c.id j, eq_iff k j, h.agrees j);
  }

  put_clients :
      (k : String) (c : Row) (n : ℤ)
      → find k p ≡ some c
      → Represents (set_clients k n p) (put k (some (with_clients n c)) m)
  put_clients k c n e = record {
    distinct = set_clients-Distinct k n p h.distinct;
    agrees = λ j. ground (arith, find-set_clients j k n p, h.agrees j);
  }

  put-without : (k : String) → Represents (without k p) (put k none m)
  put-without k = record {
    distinct = without-Distinct k p h.distinct;
    agrees = λ j. ground (arith, find-without j k p, h.agrees j);
  }

  unmoved : {r : Result Error (Unit {0})} → Agree (p, r) (m, r)
  unmoved = (h, refl)

  adds-Agree :
      (b : Bcrypt) (salt : ℕ) (k password : String) (upsert : Bool)
      → Agree (add_clients_to_community b salt k password upsert p) (join b salt k password m)
  unfolding add_clients_to_community join
  adds-Agree b salt k password upsert = elim (Option-cases (b.generate salt password)) [
    | inl e ↦ rw (e, add_clients_to_community, join) unmoved
    | inr (hash, e) ↦ elim (Option-cases (find k p)) [
      | inl n ↦
          rw (e, n, ← h.agrees k, n, add_clients_to_community, join)
            (put-none k n (new_row k hash (pos 1) false) refl, refl)
      | inr (c, s) ↦ elim (Bool-cases (b.compare_ok c.password password)) [
        | inl t ↦
            rw (e, s, ← h.agrees k, s, t, add_clients_to_community, join)
              (put_clients k c (increment c.clients) s, refl)
        | inr f ↦ rw (e, s, ← h.agrees k, s, f, add_clients_to_community, join) unmoved
      ]
    ]
  ]

  left-Agree :
      (k : String) (c : Row)
      → find k p ≡ some c
      → Agree (remove_client_from_community k p) (leave k m)
  unfolding remove_client_from_community leave
  left-Agree k c s = elim (Bool-cases (is_positive (decrement c.clients))) [
    | inl t ↦
        rw (s, ← h.agrees k, s, t, remove_client_from_community, leave)
          (put_clients k c (decrement c.clients) s, refl)
    | inr f ↦ elim (Bool-cases c.persistent) [
      | inl t ↦
          rw (s, ← h.agrees k, s, f, t, remove_client_from_community, leave)
            (
              subst
                  (λ q. Represents (set_clients k (pos 0) p) (
                    put k
                      (some (record {
                        community = record { id = c.id; clients = pos 0; persistent = q };
                        password = c.password;
                      }))
                      m))
                  t (put_clients k c (pos 0) s),
              refl,
            )
      | inr g ↦
          rw (s, ← h.agrees k, s, f, g, remove_client_from_community, leave) (put-without k, refl)
    ]
  ]

  removes-Agree : (k : String) → Agree (remove_client_from_community k p) (leave k m)
  unfolding remove_client_from_community leave
  removes-Agree k = elim (Option-cases (find k p)) [
    | inl n ↦ rw (n, ← h.agrees k, n, remove_client_from_community, leave) unmoved
    | inr (c, s) ↦ left-Agree k c s
  ]

  creates-Agree :
      (b : Bcrypt) (salt : ℕ) (k password : String)
      → let (p', r) = create_persistent_community b salt k password p in
        Agree (p', outcome r) (create b salt k password m)
  unfolding create_persistent_community create
  creates-Agree b salt k password = elim (Option-cases (b.generate salt password)) [
    | inl e ↦ rw (e, create_persistent_community, create) unmoved
    | inr (hash, e) ↦ elim (Option-cases (find k p)) [
      | inl n ↦
          rw (e, n, ← h.agrees k, n, create_persistent_community, create)
            (put-none k n (new_row k hash (pos 0) true) refl, refl)
      | inr (c, s) ↦ rw (e, s, ← h.agrees k, s, create_persistent_community, create) unmoved
    ]
  ]

  absent-Represents : (k : String) → find k p ≡ none → Represents (without k p) m
  absent-Represents k n = rw (without_absent k p n) h

  deletes-Agree : (k : String) → Agree (delete_community k p) (drop_entry k m)
  unfolding delete_community drop_entry
  deletes-Agree k = elim (Option-cases (find k p)) [
    | inl n ↦
        rw (count_matching-find k p, ← h.agrees k, n, delete_community, drop_entry)
          (absent-Represents k n, refl)
    | inr (c, s) ↦
        rw (count_matching-find k p, ← h.agrees k, s, delete_community, drop_entry)
          (put-without k, refl)
  ]

  pub call_store-Agree :
      (b : Bcrypt) (c : Call) → is_clean c ≡ false → Agree (call_store b c p) (step b c m)
  unfolding call_store step
  call_store-Agree b (adds salt k password upsert) q = adds-Agree b salt k password upsert
  call_store-Agree b (removes k) q = removes-Agree k
  call_store-Agree b (creates salt k password) q = creates-Agree b salt k password
  call_store-Agree b (deletes k) q = deletes-Agree k
  call_store-Agree b cleans q = cc

-- For every history of calls without `Cleanup` on a memory store whose rows are those of a registry,
-- with no ID twice, the store returns what the registry returns, call by call, and its rows stay those
-- of the registry. Neither reads whether ephemeral communities are enabled: a client that joins an
-- unknown community creates it in any case.
pub run_store-refines :
    (b : Bcrypt) (cs : List Call) (p : Store) (m : Registry)
    → NoCleanup cs
    → Represents p m
    → Represents (run_store b cs p).0 (run b cs m).0 × ((run_store b cs p).1 ≡ (run b cs m).1)
unfolding run_store run
run_store-refines b [] p m quiet h = (h, refl)
run_store-refines b (c ∷ cs) p m quiet h =
    let (h', e) = call_store-Agree h b c quiet.0 in
    let (h'', es) = run_store-refines b cs _ _ quiet.1 h' in (h'', ap₂ ◌∷◌ e es)
