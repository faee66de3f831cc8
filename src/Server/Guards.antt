-- ===== src/Server/Guards.antt =====
-- What the middleware of the routes guarantees (backend/cmd and backend/internal/handler/auth.go).
use dsk_agent.Base.{
  ℕ, get_elem?, all-get_elem?, ◌≡◌, refl, ◌⊎◌, Bool, true, false, not, Option, none, some, List, [],
  ◌∷◌, arith,
}
use dsk_agent.Base.Text.{Text, is_empty}
use dsk_agent.Domain.Error.{ok}
use dsk_agent.Domain.Account.{User, manager, supervisor, is_supervisor}
use dsk_agent.Db.{World, Store}
use dsk_agent.AuthService.{Claims, Validation, valid, invalid, panics, validate_token}
use dsk_agent.AuthHandler as Auth
use dsk_agent.AuthHandler.{
  Credentials, token_of, is_staff, no_token, bad_token, no_staff, no_supervisor, admitted,
  admitted_or_guest,
}
use dsk_agent.Http.{Handler, written}
use dsk_agent.Http.Steps.{after-test}
use dsk_agent.Server.{
  Route, Guard, auth, staff_role, supervisor_role, Endpoint, offer_approve, offer_reject,
  staff_create, Deps, Request, competitor_create, competitor_update, policy_create, complex_update,
  building_update, apartment_update, progress_update, unit_update,
}
use dsk_agent.Server.Routes.{staff_routes}
use dsk_agent.Server.Run.{serve, run_guards, handle}

-- The endpoints that decide on offers, make staff, competitors or policies, or change what is there.
abbrev pub decides : Endpoint → Bool
decides offer_approve = true
decides offer_reject = true
decides staff_create = true
decides competitor_create = true
decides competitor_update = true
decides policy_create = true
decides complex_update = true
decides building_update = true
decides apartment_update = true
decides progress_update = true
decides unit_update = true
decides _ = false

abbrev is_staff_route : List Guard → Endpoint → Bool
is_staff_route (auth ∷ staff_role ∷ []) e = not (decides e)
is_staff_route (auth ∷ staff_role ∷ supervisor_role ∷ []) e = true
is_staff_route _ _ = false

module _ {F A : Type 0} (w : World F) (s : Store F) {n : ℕ} {a : A} {s' : Store F} where
  after-admitted :
      (k : Option User → Handler F A) (x : Validation)
      → admitted k x w s ≡ (ok (written n a), s')
      → (v : User) × (x ≡ valid v) × (k (some v) w s ≡ (ok (written n a), s'))
  after-admitted k (valid v) h = (v, refl, h)
  after-admitted k invalid h = absurd (ground (arith, h))
  after-admitted k panics h = absurd (ground (arith, h))

  after-auth :
      (parse : Text → Option Claims) (c : Credentials) (k : Option User → Handler F A)
      → Auth.auth_middleware parse c k w s ≡ (ok (written n a), s')
      → (v : User) × (validate_token parse (token_of c) ≡ valid v)
        × (k (some v) w s ≡ (ok (written n a), s'))
  unfolding Auth.auth_middleware
  after-auth parse c k h =
      let (given, h1) = after-test w s (is_empty (token_of c)) no_token _ h in
      after-admitted k (validate_token parse (token_of c)) h1

  after-staff :
      (k : Option User → Handler F A) (v : User)
      → Auth.require_staff_role k (some v) w s ≡ (ok (written n a), s')
      → ((v.role ≡ manager) ⊎ (v.role ≡ supervisor)) × (k (some v) w s ≡ (ok (written n a), s'))
  unfolding Auth.require_staff_role
  after-staff k v h =
      let (of_staff, h1) = after-test w s (not (is_staff v.role)) no_staff (k (some v)) h in
      (ground arith, h1)

  after-supervisor :
      (k : Option User → Handler F A) (v : User)
      → Auth.require_supervisor_role k (some v) w s ≡ (ok (written n a), s')
      → (v.role ≡ supervisor) × (k (some v) w s ≡ (ok (written n a), s'))
  unfolding Auth.require_supervisor_role
  after-supervisor k v h =
      let (above, h1) = after-test w s (not (is_supervisor v.role)) no_supervisor (k (some v)) h in
      (ground arith, h1)

  staff_guards :
      (gs : List Guard) (e : Endpoint) (parse : Text → Option Claims) (c : Credentials)
      (next : Option User → Handler F A)
      → is_staff_route gs e ≡ true
      → run_guards parse c gs next none w s ≡ (ok (written n a), s')
      → (v : User) × (validate_token parse (token_of c) ≡ valid v)
        × ((v.role ≡ manager) ⊎ (v.role ≡ supervisor))
        × (decides e ≡ true → v.role ≡ supervisor)
        × (next (some v) w s ≡ (ok (written n a), s'))
  unfolding run_guards
  staff_guards (auth ∷ staff_role ∷ []) e parse c next fits h =
      let (v, known, h1) = after-auth parse c _ h in
      let (role, h2) = after-staff next v h1 in (v, known, role, λ above. absurd (ground arith), h2)
  staff_guards (auth ∷ staff_role ∷ supervisor_role ∷ []) e parse c next fits h =
      let (v, known, h1) = after-auth parse c _ h in
      let (role, h2) = after-staff _ v h1 in
      let (above, h3) = after-supervisor next v h2 in (v, known, role, λ x. above, h3)
  staff_guards _ e parse c next fits h = absurd (ground (arith, fits))

-- Where a route of the staff server with middleware writes a value, the token of the request is valid and is that of a
-- manager or a supervisor, of a supervisor where the endpoint decides on an offer, makes staff, a
-- competitor or a policy, or changes a competitor, complex, building, apartment, stage or unit, and it is
-- the endpoint's handler that has written the value, for the user of the token.
pub staff_server-IsStaff :
    {F : Type 0} (d : Deps F) (w : World F) (s : Store F) (i n : ℕ) (r : Route) (q : Request F)
    (s' : Store F)
    → get_elem? staff_routes i ≡ some r
    → handle d r q w s ≡ (ok (written n tt), s')
    → (v : User) × (validate_token d.parse (token_of q.credentials) ≡ valid v)
      × ((v.role ≡ manager) ⊎ (v.role ≡ supervisor))
      × (decides r.endpoint ≡ true → v.role ≡ supervisor)
      × (serve d q r.endpoint (some v) w s ≡ (ok (written n tt), s'))
unfolding handle staff_routes
staff_server-IsStaff d w s i n r q s' at h =
    let fits = all-get_elem? (λ x. is_staff_route x.guards x.endpoint) staff_routes i r refl at in
    staff_guards w s r.guards r.endpoint d.parse q.credentials (serve d q r.endpoint) fits h
