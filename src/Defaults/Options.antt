-- ===== src/Defaults/Options.antt =====
-- What the defaults of the configuration read and write, and the tables of users, databases and
-- ports that `SetDefaults_OnecloudClusterConfig` of pkg/apis/onecloud/v1alpha1/defaults.go loops
-- over.
use cloudpods_operator.Prelude.{ℕ, String, List, [], ◌∷◌}
use cloudpods_operator.Defaults.Types.{Fields}

pub record DbConfig : Type 0 where
  pub database : String
  pub username : String
  pub password : String

pub record CloudUser : Type 0 where
  pub username : String
  pub password : String

pub record ServiceCommonOptions : Type 0 where
  pub port : ℕ
  pub cloud_user : CloudUser

pub record ServiceDbCommonOptions : Type 0 where
  pub common : ServiceCommonOptions
  pub db : DbConfig
  pub clickhouse_conf : DbConfig

pub record GlobalServiceCommonConfig : Type 0 where
  pub cron_job_worker_count : ℕ
  pub local_task_worker_count : ℕ
  pub request_worker_count : ℕ
  pub task_worker_count : ℕ

pub record KeystoneConfig : Type 0 where
  pub port : ℕ
  pub db : DbConfig
  pub clickhouse_conf : DbConfig

-- The options of a service stand under the name of their field.
pub record OnecloudClusterConfig : Type 0 where
  pub common_config : GlobalServiceCommonConfig
  pub keystone : KeystoneConfig
  pub services : Fields ServiceCommonOptions
  pub db_services : Fields ServiceDbCommonOptions
  pub itsm_second_database : String
  pub itsm_encryption_key : String
  pub grafana_db : DbConfig

pub record UserPort : Type 0 where
  pub user : String
  pub port : ℕ

pub record UserDbPort : Type 0 where
  pub user : String
  pub port : ℕ
  pub db : String
  pub db_user : String

unfoldable pub user_ports : List (String × UserPort)
user_ports =
    ("apigateway", record { user = "yunionapi"; port = 30300 })
    ∷ ("host_agent", record { user = "hostadmin"; port = 8885 })
    ∷ ("baremetal_agent", record { user = "baremetal"; port = 8879 })
    ∷ ("s3gateway", record { user = "s3gatewayadm"; port = 30884 })
    ∷ ("esxi_agent", record { user = "esxiagent"; port = 30883 })
    ∷ ("vpc_agent", record { user = "vpcagentadmin"; port = 30932 })
    ∷ ("api_map", record { user = "apimapadmin"; port = 31999 })
    ∷ ("service_operator", record { user = "osOperator"; port = 30885 })
    ∷ ("lbagent", record { user = "lbagentadm"; port = 8895 })
    ∷ ("mcp_server", record { user = "mcp-server-admin"; port = 30876 })
    ∷ []

unfoldable pub user_db_ports : List (String × UserDbPort)
user_db_ports =
    (
      "region_server",
      record { user = "regionadmin"; port = 30888; db = "yunioncloud"; db_user = "yunioncloud" },
    )
    ∷ ("glance", record { user = "glance"; port = 30292; db = "glance"; db_user = "glance" })
    ∷ (
      "logger",
      record { user = "loggeradmin"; port = 30999; db = "yunionlogger"; db_user = "yunionlogger" },
    )
    ∷ (
      "yunionagent",
      record { user = "yunionagent"; port = 30898; db = "yunionagent"; db_user = "yunionagent" },
    )
    ∷ (
      "yunionconf",
      record { user = "yunionconf"; port = 30889; db = "yunionconf"; db_user = "yunionconf" },
    )
    ∷ (
      "kube_server",
      record { user = "kubeserver"; port = 30442; db = "kubeserver"; db_user = "kubeserver" },
    )
    ∷ (
      "ansible_server",
      record {
        user = "ansibleadmin";
        port = 30890;
        db = "yunionansible";
        db_user = "yunionansible";
      },
    )
    ∷ (
      "cloudnet",
      record {
        user = "cloudnetadmin";
        port = 30891;
        db = "yunioncloudnet";
        db_user = "yunioncloudnet";
      },
    )
    ∷ (
      "cloudproxy",
      record {
        user = "cloudproxyadmin";
        port = 30882;
        db = "yunioncloudproxy";
        db_user = "yunioncloudproxy";
      },
    )
    ∷ (
      "cloudevent",
      record {
        user = "cloudeventadmin";
        port = 30892;
        db = "yunioncloudevent";
        db_user = "yunioncloudevent";
      },
    )
    ∷ ("notify", record { user = "notify"; port = 30777; db = "notify"; db_user = "notify" })
    ∷ (
      "devtool",
      record { user = "devtooladmin"; port = 30997; db = "devtool"; db_user = "devtool" },
    )
    ∷ (
      "meter",
      record { user = "meterdocker"; port = 30909; db = "yunionmeter"; db_user = "yunionmeter" },
    )
    ∷ (
      "billing",
      record {
        user = "billingadmin";
        port = 30404;
        db = "yunionbilling";
        db_user = "yunionbilling";
      },
    )
    ∷ (
      "monitor",
      record { user = "monitoradmin"; port = 30093; db = "monitor"; db_user = "yunionmonitor" },
    )
    ∷ (
      "suggestion",
      record { user = "suggestion"; port = 30987; db = "suggestion"; db_user = "suggestion" },
    )
    ∷ ("itsm", record { user = "itsm"; port = 30595; db = "itsm"; db_user = "itsm" })
    ∷ (
      "cloud_id",
      record {
        user = "cloudidadmin";
        port = 30893;
        db = "yunioncloudid";
        db_user = "yunioncloudid";
      },
    )
    ∷ (
      "webconsole",
      record { user = "webconsole"; port = 30899; db = "webconsole"; db_user = "webconsole" },
    )
    ∷ ("report", record { user = "report"; port = 30967; db = "report"; db_user = "report" })
    ∷ (
      "auto_update",
      record { user = "autoupdate"; port = 30981; db = "autoupdate"; db_user = "autoupdate" },
    )
    ∷ (
      "bastion_host",
      record { user = "bastionhost"; port = 30983; db = "bastionhost"; db_user = "bastionhost" },
    )
    ∷ ("extdb", record { user = "extdb"; port = 30991; db = "extdb"; db_user = "extdb" })
    ∷ ("llm", record { user = "llmadmin"; port = 31512; db = "llm"; db_user = "llm" })
    ∷ (
      "ai_proxy",
      record { user = "aiproxy-admin"; port = 31513; db = "aiproxy"; db_user = "aiproxy" },
    )
    ∷ []
