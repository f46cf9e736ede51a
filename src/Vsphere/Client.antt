-- ===== src/Vsphere/Client.antt =====
-- pkg/vsphere/client.go: the clients for vCenter, made from the environment and the mounted secret.
-- `Vcenter` holds what they call of govmomi.
use sources_for_knative.Base.{String, Option, none, some, Bool, not, ◌==◌, string_eq, if◌then◌else◌}
use sources_for_knative.Kube.{Url}
use sources_for_knative.Binding.{default_mount_path}

pub record EnvConfig : Type 0 where
  pub insecure : Bool
  pub address : String
  pub secret_path : String

-- A user and a password, as `url.UserPassword` holds them.
pub record Userinfo : Type 0 where
  pub username : String
  pub password : String

-- `soap.ParseURL`; a new vim25 client of a URL that verifies certificates or not; the login of a
-- session manager; the login of a new REST client; the current time; and the session of a REST
-- client, if the call succeeds.
pub record Vcenter : Type 1 where
  pub Vim : Type 0
  pub Rest : Type 0
  pub parse_url : String → Option Url
  pub new_vim : Url → Userinfo → Bool → Option Vim
  pub soap_login : Vim → Userinfo → Option Vim
  pub rest_login : Vim → Userinfo → Option Rest
  pub current_time : Vim → Option String
  pub rest_session : Rest → Option (Option String)

-- `envconfig.Process`, and the files by directory and name.
pub record Process : Type 0 where
  pub env : Option EnvConfig
  pub read_file : String → String → Option String

pub data ClientError : Type 0 where
  bad_environment bad_url unreadable no_connection login_refused time_failed : ClientError
  session_failed unauthorized : ClientError

pub data Result {ℓ} (A : Type ℓ) : Type ℓ where
  ok : A → Result A
  err : ClientError → Result A

-- `if err != nil { return nil, err }`, and on.
abbrev pub try_with : {A B : Type 0} → Option A → ClientError → (A → Result B) → Result B
try_with none e next = err e
try_with (some a) e next = next a

abbrev pub and_with : {A B : Type 0} → Result A → (A → Result B) → Result B
and_with (err e) next = err e
and_with (ok a) next = next a

-- `mountPath`
abbrev pub mount_path_of : EnvConfig → String
mount_path_of env = if not (env.secret_path == "") then env.secret_path else default_mount_path

abbrev no_answer : Option String → Option ClientError
no_answer none = some time_failed
no_answer (some t) = none

abbrev no_session : Option (Option String) → Option ClientError
no_session none = some session_failed
no_session (some none) = some unauthorized
no_session (some (some s)) = none

module _ (vc : Vcenter) (process : Process) where
  -- `ReadKey`
  unfoldable pub read_key : String → Result String
  read_key key = try_with process.env bad_environment (λ env.
      try_with (process.read_file (mount_path_of env) key) unreadable (λ content. ok content))

  -- `soapWithKeepalive`: the explicit login makes the session.
  unfoldable pub soap_with_keepalive : Url → Userinfo → Bool → Result vc.Vim
  soap_with_keepalive url user insecure =
      try_with (vc.new_vim url user insecure) no_connection
        (λ vim. try_with (vc.soap_login vim user) login_refused (λ client. ok client))

  -- The part of both constructors that makes the SOAP client.
  unfoldable pub connected : {B : Type 0} → (vc.Vim → Userinfo → Result B) → Result B
  unfolding read_key soap_with_keepalive
  connected next = try_with process.env bad_environment (λ env.
      try_with (vc.parse_url env.address) bad_url (λ url.
        and_with (read_key "username") (λ username. and_with (read_key "password") (λ password.
          let user : Userinfo = record { username = username; password = password } in
          and_with (soap_with_keepalive url user env.insecure) (λ client. next client user)))))

  -- `NewSOAPClient`
  unfoldable pub new_soap_client : Result vc.Vim
  unfolding connected
  new_soap_client = connected (λ client user. ok client)

  -- `NewRESTClient`
  new_rest_client : Result vc.Rest
  unfolding connected
  new_rest_client =
      connected
        (λ client user. try_with (vc.rest_login client user) login_refused (λ rest. ok rest))

  -- `soapKeepAliveHandler`
  soap_keep_alive_handler : vc.Vim → Option ClientError
  soap_keep_alive_handler client = no_answer (vc.current_time client)

  -- `restKeepAliveHandler`
  rest_keep_alive_handler : vc.Rest → Option ClientError
  rest_keep_alive_handler rest = no_session (vc.rest_session rest)
