-- ===== src/Account/Service/Linking.antt =====
-- Linking an installation moves its usage to the user once.
use deins_complete.Prelude.{
  ℕ, ◌≡◌, ◌≢◌, refl, true, false, inl, inr, List, [], ◌∷◌, ◌++◌, if◌then◌else◌, Bool-cases,
}
use deins_complete.Prelude.Text.{Str, str_eq_iff}
use deins_complete.Prelude.Result.{ok, err, Result-cases, ensures}
use deins_complete.Account.{failed, Tables, Faults, Installation}
use deins_complete.Account.Rows.{select, found, found-eq_ok}
use deins_complete.Account.Rows.Growth.{select-Mem}
use deins_complete.Account.Installations.{has_id, link_installation, mark_installation_usage_linked}
use deins_complete.Account.Calls.{Call, links_installation, act, run}
use deins_complete.Account.Calls.Valid.{IsValid, transaction-Ensures}
use deins_complete.Account.Calls.Devices.{link_installation-Next}
use deins_complete.Account.Calls.Ownership.{mark_installation_usage_linked-once}
use deins_complete.Account.Service.{Library, Service, World, Context, merge_usage, link}

run-append :
    (lower : Str → Str) (cs ds : List Call) (t : Tables)
    → run lower (cs ++ ds) t ≡ run lower ds (run lower cs t)
unfolding run
run-append lower [] ds t = refl
run-append lower (c ∷ cs) ds t = run-append lower cs ds (act lower c.faults c.now c.action t)

linked_id :
    (faults : Faults) (now : ℕ) (id user : Str) (t : Tables) {i : Installation}
    → (link_installation faults now id user t).0 ≡ ok i
    → i.id ≡ id
unfolding link_installation has_id
linked_id faults now id user t h =
    let same : (x : Installation) → found (select (has_id id) t.installations) ≡ ok x → x.id ≡ id =
      λ x e.
        let (m, p) = select-Mem (has_id id) t.installations (found-eq_ok _ e) in
        (str_eq_iff x.id id).0 p in
    transaction-Ensures (λ x _. x.id ≡ id) t _ (search (ensures, same) depth 20) h

module _ {M : Type 0} (library : Library M) (s : Service) (c : Context) where
  merged_lem :
      (user id : Str) (w : World M)
      → (link library s c user id w).1.monthly ≢ w.monthly
      → let t = (link_installation (c.faults 0) (c.at 0) id user w.tables).1 in
        ((mark_installation_usage_linked (c.faults 1) (c.at 1) id t).0 ≡ ok true)
        × ((link library s c user id w).1.tables
            ≡ (mark_installation_usage_linked (c.faults 1) (c.at 1) id t).1)
  unfolding link merge_usage
  merged_lem user id w h =
      let t = (link_installation (c.faults 0) (c.at 0) id user w.tables).1 in
      elim (Result-cases (link_installation (c.faults 0) (c.at 0) id user w.tables).0) [
        | inr (x, f) ↦ absurd (h (rw (link, f) refl))
        | inl (i, f) ↦
            let same = linked_id (c.faults 0) (c.at 0) id user w.tables f in
            elim (Bool-cases s.has_monthly) [
              | inr e ↦ absurd (h (rw (link, f, e) refl))
              | inl e ↦
                  elim (Result-cases
                    (mark_installation_usage_linked (c.faults 1) (c.at 1) id t).0) [
                      | inr (x, g) ↦ absurd (h (rw (link, f, e, merge_usage, same, g) refl))
                      | inl (false, g) ↦ absurd (h (rw (link, f, e, merge_usage, same, g) refl))
                      | inl (true, g) ↦ (g, rw (link, f, e, merge_usage, same, g, same) refl)
                    ]
            ]
      ]

  unmerged_lem :
      (user id : Str) (w : World M)
      → (mark_installation_usage_linked
          (c.faults 1)
          (c.at 1)
          id
          (link_installation (c.faults 0) (c.at 0) id user w.tables).1).0
        ≡ (if c.faults 1 0 then err failed else ok false)
      → (link library s c user id w).1.monthly ≡ w.monthly
  unfolding link merge_usage
  unmerged_lem user id w h =
      elim (Result-cases (link_installation (c.faults 0) (c.at 0) id user w.tables).0) [
        | inr (x, f) ↦ rw (link, f) refl
        | inl (i, f) ↦
            let same = linked_id (c.faults 0) (c.at 0) id user w.tables f in
            elim (Bool-cases s.has_monthly) [
              | inr e ↦ rw (link, f, e) refl
              | inl e ↦ elim (Bool-cases (c.faults 1 0)) [
                | inl g ↦ rw (link, f, e, merge_usage, same, h, g) refl
                | inr g ↦ rw (link, f, e, merge_usage, same, h, g) refl
              ]
            ]
      ]

-- Once linking an installation has changed the monthly usage, linking it again changes none of it,
-- whoever links it and whatever calls of the repository are made between on valid tables.
pub link-once :
    {M : Type 0} (library : Library M) (s : Service) (c c' : Context) (user user' id : Str)
    (w : World M) (cs : List Call)
    → IsValid w.tables
    → (link library s c user id w).1.monthly ≢ w.monthly
    → let w' = record (link library s c user id w).1 {
      tables = run library.lower cs (link library s c user id w).1.tables;
    } in
      (link library s c' user' id w').1.monthly ≡ w'.monthly
unfolding run act
link-once library s c c' user user' id w cs v h =
    let (g, t) = merged_lem library s c user id w h in
    let linked = (link_installation-Next (c.faults 0) (c.at 0) v id user).valid in
    let again : Call = record {
      faults = c'.faults 0;
      now = c'.at 0;
      action = links_installation id user';
    } in
    let once =
      mark_installation_usage_linked-once library.lower (c.faults 1) (c'.faults 1) (c.at 1)
        (c'.at 1) id _ (cs ++ again ∷ []) linked g in
    unmerged_lem library s c' user' id _
      (rw t (rw (run-append library.lower cs (again ∷ []) _) at once))
