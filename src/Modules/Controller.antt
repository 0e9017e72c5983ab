-- ===== src/Modules/Controller.antt =====
-- ModuleController.cpp: the handlers that enable and disable modules. The parameter of the path is an
-- argument; `none` stands for an exception, which the HTTP library answers.
use nexus_mainframe.Common.{List, [], ◌∷◌, Str, codes, Bool, Option, none, some}
use nexus_mainframe.Json.{Json}
use nexus_mainframe.Http.Endpoint.{HttpMethod, get_method, post_method}
use nexus_mainframe.Home.Result.{Result}
use nexus_mainframe.Home.DeviceController.{Response, respond}
use nexus_mainframe.Modules.Service
use nexus_mainframe.Modules.Service.{State}

-- `routeTable`: the method, the path, the name and the description of each route.
unfoldable route_table : List (HttpMethod × Str × Str × Str)
route_table =
    (
      get_method,
      codes "/api/modules",
      codes "modules_list",
      codes "List all currently loaded modules",
    )
    ∷ (
      post_method,
      codes "/api/modules/:name/enable",
      codes "module_enable",
      codes "Load and initialise a module by name",
    )
    ∷ (
      post_method,
      codes "/api/modules/:name/disable",
      codes "module_disable",
      codes "Shut down and unload a module by name",
    )
    ∷ []

module _ {J C : Type 0} (json : Json J) (opens : Bool) where
  unfoldable answer : Option Result × State C → Option Response × State C
  answer (none, s) = (none, s)
  answer (some result, s) = (respond json result, s)

  unfoldable disable : Str → State C → Option Response × State C
  disable name s = answer (Service.disable json opens name s)

  unfoldable enable : (Str → Option Str) → Str → State C → Option Response × State C
  enable loader name s = answer (Service.enable json opens loader name s)
