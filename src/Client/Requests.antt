-- ===== src/Client/Requests.antt =====
-- pkg/client/clientset/versioned/typed/athenz/v1/athenzdomain.go: the requests of the typed client. The
-- REST client of client-go is the parameter `rest`; what Into leaves in the result at an error is not
-- read by any caller, so a call is a value or an error.
pub mod Served
pub mod Timeout
use k8s_athenz_syncer.Common.{
  ℕ, ◌*◌, ◌%◌, Bool, true, false, Option, none, some, List, [], ◌∷◌, Bytes, codes,
}
use k8s_athenz_syncer.Cluster.{GoError, Result, AthenzDomain, AthenzDomainList}

-- metav1.ListOptions. The seconds are the 64 bits of an int64.
pub record ListOptions : Type 0 where
  pub timeout_seconds : Option ℕ
  pub watch : Bool
  pub rest : Bytes

pub data Verb : Type 0 where
  get : Verb
  post : Verb
  put : Verb
  delete : Verb
  -- The type of the patch.
  patch : Bytes → Verb

-- The options of VersionedParams.
pub data Params : Type 0 where
  get_options : Bytes → Params
  list_options : ListOptions → Params
  create_options : Bytes → Params
  update_options : Bytes → Params
  patch_options : Bytes → Params

pub data Body : Type 0 where
  object : AthenzDomain → Body
  delete_options : Bytes → Body
  patch_data : Bytes → Body

pub record Request : Type 0 where
  pub verb : Verb
  pub resource : Bytes
  pub name : Option Bytes
  pub subresources : List Bytes
  pub params : Option Params
  -- In nanoseconds, the 64 bits of a time.Duration.
  pub timeout : Option ℕ
  pub body : Option Body

-- rest.Interface, by what the calls read of an answer.
pub record Rest : Type 1 where
  pub State : Type 0
  pub Watch : Type 0
  pub do_object : State → Request → Result AthenzDomain × State
  pub do_list : State → Request → Result AthenzDomainList × State
  pub do_error : State → Request → Option GoError × State
  pub do_watch : State → Request → Result Watch × State

abbrev pub athenz_domains : Bytes
athenz_domains = codes "athenzdomains"

-- A request for the resource, with nothing set.
abbrev pub blank_request : Verb → Request
blank_request verb = record {
  verb = verb;
  resource = athenz_domains;
  name = none;
  subresources = [];
  params = none;
  timeout = none;
  body = none;
}

-- time.Duration(seconds) * time.Second wraps around.
unfoldable pub timeout_of : Option ℕ → ℕ
timeout_of none = 0
timeout_of (some seconds) = (seconds * 1000000000) % 18446744073709551616

module _ (rest : Rest) where
  unfoldable pub get_domain : rest.State → Bytes → Bytes → Result AthenzDomain × rest.State
  get_domain s name options =
      rest.do_object s
        (record (blank_request get) { name = some name; params = some (get_options options) })

  unfoldable pub list_domains : rest.State → ListOptions → Result AthenzDomainList × rest.State
  list_domains s options = rest.do_list s (record (blank_request get) {
    params = some (list_options options);
    timeout = some (timeout_of options.timeout_seconds);
  })

  unfoldable pub watch_domains : rest.State → ListOptions → Result rest.Watch × rest.State
  watch_domains s options = rest.do_watch s (record (blank_request get) {
    params = some (list_options (record options { watch = true }));
    timeout = some (timeout_of options.timeout_seconds);
  })

  unfoldable pub create_domain :
      rest.State → AthenzDomain → Bytes → Result AthenzDomain × rest.State
  create_domain s athenz_domain options = rest.do_object s (record (blank_request post) {
    params = some (create_options options);
    body = some (object athenz_domain);
  })

  unfoldable pub update_domain :
      rest.State → AthenzDomain → Bytes → Result AthenzDomain × rest.State
  update_domain s athenz_domain options = rest.do_object s (record (blank_request put) {
    name = some athenz_domain.object_meta.name;
    params = some (update_options options);
    body = some (object athenz_domain);
  })

  unfoldable pub delete_domain : rest.State → Bytes → Bytes → Option GoError × rest.State
  delete_domain s name options =
      rest.do_error s
        (record (blank_request delete) { name = some name; body = some (delete_options options) })

  unfoldable pub delete_collection : rest.State → Bytes → ListOptions → Option GoError × rest.State
  delete_collection s options list_opts = rest.do_error s (record (blank_request delete) {
    params = some (list_options list_opts);
    timeout = some (timeout_of list_opts.timeout_seconds);
    body = some (delete_options options);
  })

  unfoldable pub patch_domain :
      rest.State → Bytes → Bytes → Bytes → Bytes → List Bytes → Result AthenzDomain × rest.State
  patch_domain s name patch_type data_of options subresources =
      rest.do_object s (record (blank_request (patch patch_type)) {
        name = some name;
        subresources = subresources;
        params = some (patch_options options);
        body = some (patch_data data_of);
      })
