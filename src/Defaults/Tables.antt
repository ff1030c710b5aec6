-- ===== src/Defaults/Tables.antt =====
-- The tables that pkg/apis/onecloud/v1alpha1/defaults.go loops over. A Go map is visited in an
-- order of its own: `Orders` is one such order for each map literal.
use cloudpods_operator.Prelude.{ℕ, String, Bool, true, false, Option, none, some, List, [], ◌∷◌}
use cloudpods_operator.Exec.{Void}

-- The deployments with the same image in each edition, and whether a hyper image may stand for it.
unfoldable pub shared_components : List (String × Bool)
shared_components =
    ("webconsole", true)
    ∷ ("scheduler", true)
    ∷ ("logger", true)
    ∷ ("yunionconf", true)
    ∷ ("kubeserver", false)
    ∷ ("ansibleserver", true)
    ∷ ("cloudnet", false)
    ∷ ("cloudproxy", false)
    ∷ ("cloudevent", true)
    ∷ ("s3gateway", false)
    ∷ ("devtool", true)
    ∷ ("autoupdate", true)
    ∷ ("ovn-north", false)
    ∷ ("vpcagent", true)
    ∷ ("onecloud-service-operator", false)
    ∷ ("itsm", false)
    ∷ ("cloudid", true)
    ∷ ("suggestion", true)
    ∷ ("scheduledtask", true)
    ∷ ("report", true)
    ∷ ("apimap", true)
    ∷ ("bastionhost", true)
    ∷ ("extdb", true)
    ∷ ("billing", true)
    ∷ ("llm", true)
    ∷ ("aiproxy", true)
    ∷ []

-- Those with an image of their own in the enterprise edition. The entry of Cloudmux sets the
-- defaults of a copy, and is left out.
unfoldable pub edition_components : List (String × Bool)
edition_components = ("cloudmon", true) ∷ ("mcp-server", true) ∷ []

-- Those with an image of their own in the enterprise and the support edition.
unfoldable pub support_components : List (String × Bool)
support_components = ("apigateway", true) ∷ ("climc", false) ∷ ("web", false) ∷ []

unfoldable pub daemon_components : List (String × Void)
daemon_components =
    ("host", tt)
    ∷ ("host-deployer", tt)
    ∷ ("yunionagent", tt)
    ∷ ("host-image", tt)
    ∷ ("lbagent", tt)
    ∷ []

-- `stateDeploy`: `own_version` where it is not the cluster's.
pub record StateDeploy : Type 0 where
  pub size : String
  pub own_version : Option String
  pub hyper : Bool

unfoldable pub stateful_components : List (String × StateDeploy)
stateful_components =
    ("glance", record { size = "100G"; own_version = none; hyper = true })
    ∷ ("influxdb", record { size = "20G"; own_version = some "1.7.7"; hyper = false })
    ∷ ("victoria-metrics", record { size = "20G"; own_version = some "v1.129.1-1"; hyper = false })
    ∷ ("notify", record { size = "1G"; own_version = none; hyper = true })
    ∷ ("baremetal-agent", record { size = "100G"; own_version = none; hyper = false })
    ∷ ("meter", record { size = "100G"; own_version = none; hyper = true })
    ∷ ("esxi-agent", record { size = "30G"; own_version = none; hyper = true })
    ∷ []

-- The fields that hold a service, with its default node port, in the order of the slice.
unfoldable pub service_ports : List (String × ℕ)
service_ports =
    ("keystone.admin_service", 30357)
    ∷ ("keystone.public_service", 30500)
    ∷ ("region_server.service", 30888)
    ∷ ("scheduler.service", 30887)
    ∷ ("glance.service", 30292)
    ∷ ("webconsole.service", 30899)
    ∷ ("logger.service", 30999)
    ∷ ("yunionconf.service", 30889)
    ∷ ("kube_server.service", 30442)
    ∷ ("ansible_server.service", 30890)
    ∷ ("cloudnet.service", 30891)
    ∷ ("cloudproxy.service", 30882)
    ∷ ("cloudevent.service", 30892)
    ∷ ("cloud_id.service", 30893)
    ∷ ("cloudmon.service", 30931)
    ∷ ("auto_update.service", 30981)
    ∷ ("s3gateway.service", 30884)
    ∷ ("devtool.service", 30997)
    ∷ ("meter.service", 30909)
    ∷ ("billing.service", 30404)
    ∷ ("itsm.service", 30595)
    ∷ ("suggestion.service", 30987)
    ∷ ("notify.service", 30777)
    ∷ ("influxdb.service", 30086)
    ∷ ("victoria_metrics.service", 30428)
    ∷ ("monitor.service", 30093)
    ∷ ("scheduledtask.service", 30978)
    ∷ ("api_map.service", 31999)
    ∷ ("report.service", 30967)
    ∷ ("apigateway.apiservice", 30300)
    ∷ ("apigateway.wsservice", 30443)
    ∷ ("service_operator.service", 30885)
    ∷ ("yunionagent.service", 30898)
    ∷ ("vpc_agent.service", 30932)
    ∷ ("bastion_host.service", 30983)
    ∷ ("extdb.service", 30991)
    ∷ ("llm.service", 31512)
    ∷ ("mcp_server.service", 30876)
    ∷ ("ai_proxy.service", 31513)
    ∷ []

pub record Orders : Type 0 where
  pub shared : List (String × Bool)
  pub edition : List (String × Bool)
  pub support : List (String × Bool)
  pub daemons : List (String × Void)
  pub stateful : List (String × StateDeploy)

-- The order of the source.
unfoldable pub source_orders : Orders
unfolding shared_components edition_components support_components daemon_components
source_orders = record {
  shared = shared_components;
  edition = edition_components;
  support = support_components;
  daemons = daemon_components;
  stateful = stateful_components;
}
