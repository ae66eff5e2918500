-- ===== src/Manager.antt =====
-- pkg/wrtcmgr/wrtcmgr.go, and the manager commands of cmd/weron/cmd: the client of the management API.
use weron.Prelude.{
  ◌==◌, if◌then◌else◌, blank, Result, ok, err, ◌>>=◌, ℕ, String, ◌≡◌, refl, ◌≢◌, Bool, true, false,
  Option, none, some, List, [], ◌∷◌, arith,
}
use weron.Persister.{Community}
use weron.Signaler.{Method, get, post, delete_method}

pub record HttpRequest : Type 0 where
  pub verb : Method
  pub url : String
  pub username : String
  pub password : String

-- `body` is `none` where reading it fails.
pub record HttpResponse : Type 0 where
  pub status : ℕ
  pub body : Option String

pub data ManagerError : Type 0 where
  no_api_password no_api_username no_community no_password : ManagerError
  bad_url bad_request not_sent no_body bad_body : ManagerError
  bad_status : ℕ → ManagerError

pub record Manager : Type 0 where
  pub url : String
  pub username : String
  pub password : String

-- `with_query url values` is the address with the values set in its query, `none` where `url.Parse`
-- fails; `send` is `hc.Do`; the last two are `json.Unmarshal`.
module _ (with_query : String → List (String × String) → Option String)
    (valid_request : String → Bool) (send : HttpRequest → Option HttpResponse)
    (unmarshal_community : String → Option Community)
    (unmarshal_communities : String → Option (List Community)) where
  -- The request with its credentials, and the test of the status.
  unfoldable pub exchange :
      Manager → Method → List (String × String) → Result ManagerError HttpResponse
  exchange m verb values = elim (with_query m.url values) [
    | none ↦ err bad_url
    | some u ↦
        if valid_request u
        then elim (send
            (record { verb = verb; url = u; username = m.username; password = m.password })) [
              | none ↦ err not_sent
              | some res ↦ if res.status == 200 then ok res else err (bad_status res.status)
            ]
        else err bad_request
  ]

  unfoldable pub create_persistent_community :
      Manager → String → String → Result ManagerError Community
  create_persistent_community m community password = do
    res ← exchange m post (("community", community) ∷ ("password", password) ∷ [])
    elim res.body [
      | none ↦ err no_body
      | some body ↦ elim (unmarshal_community body) [ none ↦ err bad_body | some c ↦ ok c ]
    ]

  unfoldable pub list_communities : Manager → Result ManagerError (List Community)
  list_communities m = do
    res ← exchange m get []
    elim res.body [
      | none ↦ err no_body
      | some body ↦ elim (unmarshal_communities body) [ none ↦ err bad_body | some cs ↦ ok cs ]
    ]

  unfoldable pub delete_community : Manager → String → Result ManagerError (Unit {0})
  delete_community m community = do
    res ← exchange m delete_method (("community", community) ∷ [])
    ok tt

  exchange_refused :
      (m : Manager) (verb : Method) (values : List (String × String)) (u : String) (code : ℕ)
      (body : Option String)
      → send (record { verb = verb; url = u; username = m.username; password = m.password })
        ≡ some (record { status = code; body = body })
      → with_query m.url values ≡ some u
      → valid_request u ≡ true
      → code ≢ 200
      → exchange m verb values ≡ err (bad_status code)
  unfolding exchange
  exchange_refused m verb values u code body s q v n = ground (arith, s, q, v, n)

  -- The commands: the checks of the flags, the credentials first, and then the operation.
  unfoldable pub run_list : Manager → Result ManagerError (List Community)
  run_list m =
      if blank m.password
      then err no_api_password
      else if blank m.username
      then err no_api_username
      else list_communities m

  unfoldable pub run_create : Manager → String → String → Result ManagerError Community
  run_create m community password =
      if blank m.password
      then err no_api_password
      else if blank m.username
      then err no_api_username
      else if blank community
      then err no_community
      else if blank password
      then err no_password
      else create_persistent_community m community password

  unfoldable pub run_delete : Manager → String → Result ManagerError (Unit {0})
  run_delete m community =
      if blank m.password
      then err no_api_password
      else if blank m.username
      then err no_api_username
      else if blank community
      then err no_community
      else delete_community m community

  -- What the operations return where the answer has the status 200.
  exchange_accepted :
      (m : Manager) (verb : Method) (values : List (String × String)) (u : String)
      (body : Option String)
      → with_query m.url values ≡ some u
      → valid_request u ≡ true
      → send (record { verb = verb; url = u; username = m.username; password = m.password })
        ≡ some (record { status = 200; body = body })
      → exchange m verb values ≡ ok (record { status = 200; body = body })
  unfolding exchange
  exchange_accepted m verb values u body q v s = ground (arith, q, v, s)

  pub create_accepted :
      (m : Manager) (community password u body : String) (c : Community)
      → with_query m.url (("community", community) ∷ ("password", password) ∷ []) ≡ some u
      → valid_request u ≡ true
      → send (record { verb = post; url = u; username = m.username; password = m.password })
        ≡ some (record { status = 200; body = some body })
      → unmarshal_community body ≡ some c
      → create_persistent_community m community password ≡ ok c
  unfolding create_persistent_community
  create_accepted m community password u body c q v s r =
      rw (exchange_accepted m post _ u (some body) q v s) (ground (arith, r))

  pub list_accepted :
      (m : Manager) (u body : String) (cc : List Community)
      → with_query m.url [] ≡ some u
      → valid_request u ≡ true
      → send (record { verb = get; url = u; username = m.username; password = m.password })
        ≡ some (record { status = 200; body = some body })
      → unmarshal_communities body ≡ some cc
      → list_communities m ≡ ok cc
  unfolding list_communities
  list_accepted m u body cc q v s r =
      rw (exchange_accepted m get _ u (some body) q v s) (ground (arith, r))

  pub delete_accepted :
      (m : Manager) (community u : String) (body : Option String)
      → with_query m.url (("community", community) ∷ []) ≡ some u
      → valid_request u ≡ true
      → send
          (record { verb = delete_method; url = u; username = m.username; password = m.password })
        ≡ some (record { status = 200; body = body })
      → delete_community m community ≡ ok tt
  unfolding delete_community
  delete_accepted m community u body q v s =
      rw (exchange_accepted m delete_method _ u body q v s) refl

  -- With credentials, a community and a password that are not blank, the commands that create, list
  -- and delete fail with the status of the answer, whatever its body says, if the signaler answers
  -- every request of them with one status other than 200.
  pub manager_refused :
      (m : Manager) (community password u : String) (code : ℕ) (body : Option String)
      → ((verb : Method)
          → send (record { verb = verb; url = u; username = m.username; password = m.password })
            ≡ some (record { status = code; body = body }))
      → ((values : List (String × String)) → with_query m.url values ≡ some u)
      → valid_request u ≡ true
      → code ≢ 200
      → blank m.username ≡ false
      → blank m.password ≡ false
      → blank community ≡ false
      → blank password ≡ false
      → (run_create m community password ≡ err (bad_status code))
        × (run_list m ≡ err (bad_status code))
        × (run_delete m community ≡ err (bad_status code))
  unfolding run_create run_list run_delete create_persistent_community list_communities
      delete_community
  manager_refused m community password u code body s q v n bu bp bc bw = (
    ground (
      arith,
      exchange_refused m post (("community", community) ∷ ("password", password) ∷ []) u code body
          (s post) (q (("community", community) ∷ ("password", password) ∷ [])) v n,
    ),
    ground (arith, exchange_refused m get [] u code body (s get) (q []) v n),
    ground (
      arith,
      exchange_refused m delete_method (("community", community) ∷ []) u code body (s delete_method)
          (q (("community", community) ∷ [])) v n,
    ),
  )
