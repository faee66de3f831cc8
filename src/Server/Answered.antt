-- ===== src/Server/Answered.antt =====
-- Every route of the servers answers every request (backend/cmd and backend/internal/handler/auth.go).
use dsk_agent.Base.{
  ℕ, get_elem?, all-get_elem?, ◌≡◌, refl, ◌⊎◌, inl, inr, Bool, true, false, not, Option, none, some,
  List, [], ◌∷◌, ◌++◌, arith, Option-cases,
}
use dsk_agent.Base.Text.{Text, is_empty}
use dsk_agent.Domain.Account.{User, is_supervisor}
use dsk_agent.AuthService.{
  Claims, Validation, valid, invalid, panics, validate_token, user_of_claims,
}
use dsk_agent.AuthHandler as Auth
use dsk_agent.AuthHandler.{
  Credentials, token_of, is_staff, no_token, bad_token, no_staff, no_supervisor, admitted,
  admitted_or_guest,
}
use dsk_agent.Http.{Handler, refuse}
use dsk_agent.Db.{World, Store}
use dsk_agent.Http.Answered.{IsAnswer, Answers, Answers-if, Answers-refuse}
use dsk_agent.Server.{
  Route, Guard, auth, optional_auth, staff_role, supervisor_role, Endpoint, Deps, Request,
}
use dsk_agent.Server.Routes.{public_routes, staff_routes, user_routes}
use dsk_agent.Server.Run.{serve, run_guards, handle}
use dsk_agent.Server.Total.{is_open, serve-Answers, guest-Answers}

-- Every token that is found valid has the four claims, as those of `GenerateToken` have.
abbrev pub IsComplete : (Text → Option Claims) → Type 0
IsComplete parse =
    (t : Text) (c : Claims) → parse t ≡ some c → (u : User) × (user_of_claims c ≡ valid u)

-- Middleware that lets a user through as it is.
abbrev keeps_user : List Guard → Bool
keeps_user [] = true
keeps_user (staff_role ∷ gs) = keeps_user gs
keeps_user (supervisor_role ∷ gs) = keeps_user gs
keeps_user _ = false

-- Routes that are for users, or open to guests.
abbrev is_guarded : List Guard → Endpoint → Bool
is_guarded (auth ∷ gs) e = keeps_user gs
is_guarded (optional_auth ∷ []) e = is_open e
is_guarded [] e = is_open e
is_guarded _ _ = false

module _ {F A : Type 0} (parse : Text → Option Claims) (c : Credentials)
    (next : Option User → Handler F A) where
  keeps_user-Answers :
      (gs : List Guard) (v : User)
      → keeps_user gs ≡ true
      → ((u : User) → Answers (next (some u)))
      → Answers (run_guards parse c gs next (some v))
  unfolding run_guards Auth.require_staff_role Auth.require_supervisor_role
  keeps_user-Answers [] v h p = p v
  keeps_user-Answers (staff_role ∷ gs) v h p =
      Answers-if (not (is_staff v.role)) (refuse no_staff) _
        (Answers-refuse A no_staff (omega arith)) (keeps_user-Answers gs v h p)
  keeps_user-Answers (supervisor_role ∷ gs) v h p =
      Answers-if (not (is_supervisor v.role)) (refuse no_supervisor) _
        (Answers-refuse A no_supervisor (omega arith)) (keeps_user-Answers gs v h p)
  keeps_user-Answers (auth ∷ gs) v h p = absurd (ground (arith, h))
  keeps_user-Answers (optional_auth ∷ gs) v h p = absurd (ground (arith, h))

  -- A valid token is that of a user.
  validation :
      IsComplete parse
      → (t : Text)
      → ((u : User) × (validate_token parse t ≡ valid u)) ⊎ (validate_token parse t ≡ invalid)
  unfolding validate_token
  validation complete t = elim (Option-cases (parse t)) [
    | inl e ↦ inr (rw (e, validate_token) refl)
    | inr (claims, e) ↦ let (u, is_u) = complete t claims e in inl (u, rw (e, validate_token) is_u)
  ]

  admitted-Answers :
      (k : Option User → Handler F A) (x : Validation)
      → ((u : User) × (x ≡ valid u)) ⊎ (x ≡ invalid)
      → ((u : User) → Answers (k (some u)))
      → Answers (admitted k x)
  admitted-Answers k (valid u) known p = p u
  admitted-Answers k invalid known p = Answers-refuse A bad_token (omega arith)
  admitted-Answers k panics known p = absurd (ground (arith, known))

  guest_admitted-Answers :
      (k : Option User → Handler F A) (x : Validation)
      → ((u : User) × (x ≡ valid u)) ⊎ (x ≡ invalid)
      → ((u : User) → Answers (k (some u)))
      → Answers (k none)
      → Answers (admitted_or_guest k x)
  guest_admitted-Answers k (valid u) known p guest = p u
  guest_admitted-Answers k invalid known p guest = guest
  guest_admitted-Answers k panics known p guest = absurd (ground (arith, known))

  guarded-Answers :
      (gs : List Guard) (e : Endpoint)
      → IsComplete parse
      → is_guarded gs e ≡ true
      → ((u : User) → Answers (next (some u)))
      → (is_open e ≡ true → Answers (next none))
      → Answers (run_guards parse c gs next none)
  unfolding run_guards Auth.auth_middleware Auth.optional_auth_middleware
  guarded-Answers (auth ∷ gs) e complete h p guest =
      Answers-if (is_empty (token_of c)) (refuse no_token) _
        (Answers-refuse A no_token (omega arith))
        (admitted-Answers (run_guards parse c gs next) _ (validation complete (token_of c))
          (λ u. keeps_user-Answers gs u h p))
  guarded-Answers (optional_auth ∷ []) e complete h p guest =
      Answers-if (is_empty (token_of c)) (next none) _ (guest h)
        (guest_admitted-Answers next _ (validation complete (token_of c)) p (guest h))
  guarded-Answers [] e complete h p guest = guest h
  guarded-Answers _ _ complete h p guest = absurd (ground (arith, h))

module _ {F : Type 0} (d : Deps F) (i : ℕ) (r : Route) where
  -- Every request on a modelled route of either server is answered: with a status from 200 to 599 and a value, or
  -- with a status from 400 to 599 and an error, and never by a panic, whatever the request carries and
  -- the database does, as long as every token that is found valid has the four claims.
  pub handle-Answers :
      IsComplete d.parse
      → get_elem? (public_routes ++ staff_routes ++ user_routes) i ≡ some r
      → (q : Request F) (w : World F) (s : Store F) → IsAnswer (handle d r q w s).0
  unfolding handle public_routes staff_routes user_routes
  handle-Answers complete at q =
      guarded-Answers d.parse q.credentials (serve d q r.endpoint) r.guards r.endpoint complete
        (all-get_elem? (λ x. is_guarded x.guards x.endpoint)
          (public_routes ++ staff_routes ++ user_routes) i r refl at)
        (serve-Answers d q r.endpoint) (guest-Answers d q r.endpoint)
