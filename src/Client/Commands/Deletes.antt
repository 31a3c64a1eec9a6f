-- ===== src/Client/Commands/Deletes.antt =====
-- What becomes of `delete_association`.
use innernet.Prelude.{
  ℕ, String, ◌≡◌, refl, sym, subst, ◌≢◌, ◌⊎◌, inl, inr, Bool, true, Option, none, some, List, [],
  ◌∷◌, arith,
}
use innernet.Net.{SocketAddr}
use innernet.Wg.{Base64}
use innernet.Wg.DeviceBuilder.{DeviceConfigBuilder}
use innernet.Shared.Prompts as Prompts
use innernet.Shared.{Cidr, Association}
use innernet.Shared.Prompts.{Prompt, chosen, declined, panicked, error, on_item}
use innernet.Server.Db.{Result-cases, Packages}
use innernet.Server.Session.{with_admin_session}
use innernet.Server.Api.{ServerState, Body, Reply}
use innernet.Server.Api.Admin
use innernet.Server.Db.Cidrs
use innernet.Server.Db.Associations
use innernet.Server.Api.Routes.{
  serve_request, route, admin_route, cidr_route, association_route, Request, run,
}
use innernet.Client.Http.{
  Answer, got, failed, gave_up, unanswered, ◌>>=◌, Command, as_cidrs, as_associations, http_get,
  http_delete, request, call, process_response,
}
use innernet.Client.Commands.{delete_association, after_prompt}

-- The server keeps its state, and the command does not succeed.
abbrev pub IsFruitless : {S : Type 0} → S → S × Answer (Unit {0}) → Type 0
IsFruitless s r = (r.0 ≡ s) × ((u : Unit {0}) → r.1 ≢ got u)

then-IsFruitless :
    {S A : Type 0} (m : Command S A) (f : A → Command S (Unit {0})) (s : S)
    → (m s).0 ≡ s
    → ((a : A) → IsFruitless s (f a s))
    → IsFruitless s ((m >>= f) s)
then-IsFruitless m f s idle rest = settled (m s) idle
  where
    settled : (r : _ × Answer _) → r.0 ≡ s → IsFruitless s (((λ (t : _). r) >>= f) s)
    settled (s', got a) e = subst (λ t. IsFruitless s (f a t)) (sym e) (rest a)
    settled (s', failed) e = (e, λ u n. ground (arith, n))
    settled (s', gave_up) e = (e, λ u n. ground (arith, n))
    settled (s', unanswered) e = (e, λ u n. ground (arith, n))

module _ (pk : Packages) (base64 : Base64) (accepts : DeviceConfigBuilder → Bool)
    (parse_id : String → Option ℕ) (local : Option SocketAddr) where
  abbrev pub ask : Request → ServerState → ServerState × Reply
  ask = serve_request pk base64 accepts parse_id

  -- A list of the server is read without a change of it.
  cidrs_idle :
      {A : Type 0} (read : Body → Option A) (s : ServerState)
      → (http_get ask local read ("admin" ∷ "cidrs" ∷ []) s).0 ≡ s
  unfolding http_get request call serve_request route admin_route cidr_route run Admin.list_cidrs
      Cidrs.list
  cidrs_idle read s = elim (Result-cases (with_admin_session local s.conn)) [
    | inl (me, e) ↦ ground (arith, e)
    | inr (x, e) ↦ ground (arith, e)
  ]

  associations_idle :
      {A : Type 0} (read : Body → Option A) (s : ServerState)
      → (http_get ask local read ("admin" ∷ "associations" ∷ []) s).0 ≡ s
  unfolding http_get request call serve_request route admin_route association_route run
      Admin.list_associations Associations.list
  associations_idle read s = elim (Result-cases (with_admin_session local s.conn)) [
    | inl (me, e) ↦ ground (arith, e)
    | inr (x, e) ↦ ground (arith, e)
  ]

  delete_refused :
      (segment : String) (s : ServerState)
      → http_delete ask local ("admin" ∷ "associations" ∷ segment ∷ []) s ≡ (s, failed)
  unfolding http_delete request call process_response serve_request route admin_route
      association_route
  delete_refused segment s = refl

  -- A dialog that is confirmed is not declined.
  confirmed_on_item :
      {A B : Type 0} (o : Option A) (f : A → Prompt B)
      → ((a : A) → (b : B) × (f a ≡ chosen b))
      → (on_item o f ≡ panicked) ⊎ ((b : B) × (on_item o f ≡ chosen b))
  confirmed_on_item none f h = inl refl
  confirmed_on_item (some a) f h = inr (h a)

  asked_to_delete :
      (show : ℕ → String) (p : Prompt Association) (s : ServerState)
      → (p ≡ panicked) ⊎ ((a : Association) × (p ≡ chosen a))
      → IsFruitless s (
          after_prompt p (λ a. http_delete ask local ("admin" ∷ "associations" ∷ show a.id ∷ [])) s)
  asked_to_delete show p s (inl e) = rw e (refl, λ u n. ground (arith, n))
  asked_to_delete show p s (inr (a, e)) =
      let refused = delete_refused (show a.id) s in rw (e, refused) (refl, λ u n. ground (arith, n))

  -- `delete_association`, confirmed, deletes nothing: whatever the state of the server and whoever
  -- asks, the server keeps its state, and the command does not succeed.
  pub delete_association-IsFruitless :
      (show : ℕ → String) (index : ℕ) (s : ServerState)
      → IsFruitless s (delete_association ask local show index true s)
  unfolding delete_association Prompts.delete_association
  delete_association-IsFruitless show index s =
      let last : List Cidr → List Association → Command ServerState (Unit {0}) =
        λ cidrs associations.
          after_prompt (Prompts.delete_association associations cidrs index true)
            (λ a. http_delete ask local ("admin" ∷ "associations" ∷ show a.id ∷ [])) in
      let second = http_get ask local as_associations ("admin" ∷ "associations" ∷ []) in
      then-IsFruitless (http_get ask local as_cidrs ("admin" ∷ "cidrs" ∷ []))
        (λ cidrs. second >>= last cidrs) s (cidrs_idle as_cidrs s)
        (λ cidrs.
          then-IsFruitless second (last cidrs) s (associations_idle as_associations s)
            (λ associations.
              asked_to_delete show (Prompts.delete_association associations cidrs index true) s (
                confirmed_on_item (Prompts.choose_association associations cidrs index)
                  (λ a. chosen a) (λ a. (a, refl)))))
