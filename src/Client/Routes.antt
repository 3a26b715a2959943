-- ===== src/Client/Routes.antt =====
-- routes.go: the table of routes, and the route that a request takes.
use baggageclaim.Prelude.{
  String, ◌≡◌, ◌==◌, refl, Bool, Bool-cases, inl, inr, false, true, ◌&&◌, Option, none, some, List,
  [], ◌∷◌, if◌then◌else◌,
}
use baggageclaim.Client.Wire.{Request}

-- a part of a path: a fixed word, or a parameter such as `:handle`, which takes one part of any text
pub data Segment : Type 0 where
  word : String → Segment
  parameter : String → Segment

pub record Route : Type 0 where
  pub path : List Segment
  pub method : String
  pub name : String

abbrev pub of_volume : List Segment → List Segment
of_volume rest = word "volumes" ∷ parameter "handle" ∷ rest

-- `Routes`, in its order
abbrev pub routes : List Route
routes =
    record { path = word "volumes" ∷ []; method = "GET"; name = "ListVolumes" }
    ∷ record { path = word "volumes" ∷ []; method = "POST"; name = "CreateVolume" }
    ∷ record { path = word "volumes-async" ∷ []; method = "POST"; name = "CreateVolumeAsync" }
    ∷ record {
      path = word "volumes-async" ∷ parameter "handle" ∷ [];
      method = "GET";
      name = "CreateVolumeAsyncCheck";
    }
    ∷ record {
      path = word "volumes-async" ∷ parameter "handle" ∷ [];
      method = "DELETE";
      name = "CreateVolumeAsyncCancel";
    }
    ∷ record { path = of_volume []; method = "GET"; name = "GetVolume" }
    ∷ record {
      path = of_volume (word "properties" ∷ parameter "property" ∷ []);
      method = "PUT";
      name = "SetProperty";
    }
    ∷ record { path = of_volume (word "privileged" ∷ []); method = "GET"; name = "GetPrivileged" }
    ∷ record { path = of_volume (word "privileged" ∷ []); method = "PUT"; name = "SetPrivileged" }
    ∷ record { path = of_volume (word "stream-in" ∷ []); method = "PUT"; name = "StreamIn" }
    ∷ record { path = of_volume (word "stream-out" ∷ []); method = "PUT"; name = "StreamOut" }
    ∷ record {
      path = of_volume (word "stream-p2p-out" ∷ []);
      method = "PUT";
      name = "StreamP2pOut";
    }
    ∷ record {
      path = word "volumes" ∷ word "destroy" ∷ [];
      method = "DELETE";
      name = "DestroyVolumes";
    }
    ∷ record { path = of_volume []; method = "DELETE"; name = "DestroyVolume" }
    ∷ record { path = word "p2p-url" ∷ []; method = "GET"; name = "GetP2pUrl" }
    ∷ []

abbrev pub fits : List Segment → List String → Bool
fits [] [] = true
fits [] (part ∷ parts) = false
fits (segment ∷ path) [] = false
fits (word s ∷ path) (part ∷ parts) = part == s && fits path parts
fits (parameter s ∷ path) (part ∷ parts) = fits path parts

-- rata's router takes the first route with the method and the path of a request.
abbrev pub find_route : String → List String → List Route → Option String
find_route method parts [] = none
find_route method parts (route ∷ rest) =
    let later = find_route method parts rest in
    if method == route.method && fits route.path parts then some route.name else later

-- The name of the route that the client makes a request by.
abbrev pub route_name : Request → String
route_name (Request.create_volume_async request) = "CreateVolumeAsync"
route_name (Request.create_volume_async_check h) = "CreateVolumeAsyncCheck"
route_name (Request.create_volume_async_cancel h) = "CreateVolumeAsyncCancel"
route_name (Request.list_volumes query) = "ListVolumes"
route_name (Request.get_volume h) = "GetVolume"
route_name (Request.destroy_volumes hs) = "DestroyVolumes"
route_name (Request.destroy_volume h) = "DestroyVolume"
route_name (Request.set_property h name value) = "SetProperty"
route_name (Request.get_privileged h) = "GetPrivileged"
route_name (Request.set_privileged h b) = "SetPrivileged"
route_name (Request.stream_in h path encoding content) = "StreamIn"
route_name (Request.stream_out h path encoding) = "StreamOut"
route_name (Request.stream_p2p_out h path url encoding) = "StreamP2pOut"

-- its parameters, by their names
abbrev pub parameter_of : Request → String → String
parameter_of (Request.create_volume_async_check h) name = h
parameter_of (Request.create_volume_async_cancel h) name = h
parameter_of (Request.get_volume h) name = h
parameter_of (Request.destroy_volume h) name = h
parameter_of (Request.set_property h property value) name =
    if name == "property" then property else h
parameter_of (Request.get_privileged h) name = h
parameter_of (Request.set_privileged h b) name = h
parameter_of (Request.stream_in h path encoding content) name = h
parameter_of (Request.stream_out h path encoding) name = h
parameter_of (Request.stream_p2p_out h path url encoding) name = h
parameter_of _ name = ""

abbrev pub filled : (String → String) → List Segment → List String
filled value [] = []
filled value (word s ∷ path) = s ∷ filled value path
filled value (parameter s ∷ path) = value s ∷ filled value path

-- the method and the path of a request by the route of that name
abbrev pub requested : String → (String → String) → List Route → String × List String
requested name value [] = ("", [])
requested name value (route ∷ rest) =
    let later = requested name value rest in
    if route.name == name then (route.method, filled value route.path) else later

-- The route that the server finds for a request that the client makes. Handles and names of
-- properties are one part of a path each.
abbrev pub route_of : Request → Option String
route_of request =
    let (method, parts) = requested (route_name request) (parameter_of request) routes in
    find_route method parts routes

-- The request is to destroy the one volume with the handle `destroy`.
abbrev pub is_shadowed : Request → Bool
is_shadowed (Request.destroy_volume h) = h == "destroy"
is_shadowed _ = false

-- Every request but one is routed by the name that it was made by; the request to destroy the volume
-- with the handle `destroy` takes the route of DestroyVolumes.
pub route_of_lem :
    (request : Request)
    → route_of request ≡ some (if is_shadowed request then "DestroyVolumes" else route_name request)
route_of_lem (Request.create_volume_async request) = refl
route_of_lem (Request.create_volume_async_check h) = refl
route_of_lem (Request.create_volume_async_cancel h) = refl
route_of_lem (Request.list_volumes query) = refl
route_of_lem (Request.get_volume h) = refl
route_of_lem (Request.destroy_volumes hs) = refl
route_of_lem (Request.set_property h name value) = refl
route_of_lem (Request.get_privileged h) = refl
route_of_lem (Request.set_privileged h b) = refl
route_of_lem (Request.stream_in h path encoding content) = refl
route_of_lem (Request.stream_out h path encoding) = refl
route_of_lem (Request.stream_p2p_out h path url encoding) = refl
route_of_lem (Request.destroy_volume h) = elim (Bool-cases (h == "destroy")) [
  | inl e ↦ rw e refl
  | inr e ↦ rw e refl
]
