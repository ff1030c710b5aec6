-- ===== src/Control/Notify.antt =====
-- What `checkMysqlSlaveStatus` of pkg/controller/cluster/onecloud_cluster_control.go reports of the
-- two hosts.
use cloudpods_operator.Prelude.{String, ◌≡◌, refl, ap, ◌∙◌, Option, some, [], ◌∷◌}
use cloudpods_operator.Etcd.Types.{Labels}
use cloudpods_operator.Sync.Objects.{find, put}
use cloudpods_operator.Sync.Maps.{find-put, find-put_other}
use cloudpods_operator.Control.Mysql.{
  inject_err, second_statuses, report, reports, text_of, value_or, labels_or_empty,
}

inject_err-error :
    (ip message : String) (s : Option Labels)
    → find "Operator_Error" (inject_err ip s message) ≡ some message
unfolding inject_err
inject_err-error ip message s =
    find-put_other "Operator_Error" "IP" ip _ refl ∙ find-put "Operator_Error" message _

inject_err-ip :
    (ip message : String) (s : Option Labels) → text_of "IP" (inject_err ip s message) ≡ ip
unfolding inject_err
inject_err-ip ip message s =
    ap (value_or "") (find-put "IP" ip (put "Operator_Error" message (labels_or_empty s)))

-- The entry for a host that could not be asked.
abbrev pub failed_entry : String → String → Labels
failed_entry ip message = ("ip", ip) ∷ ("operator_error", message) ∷ []

report-inject_err :
    (ip message : String) (s : Option Labels)
    → report (inject_err ip s message) ≡ failed_entry ip message
unfolding report
report-inject_err ip message s = rw (
  inject_err-error ip message s,
  ap (value_or "") (inject_err-error ip message s),
  inject_err-ip ip message s,
)

-- Where the peer of a host that is out of sync cannot be asked, the status of that host is lost:
-- the report names the peer twice, both times with the peer's error.
pub reports-lost :
    (peer p message : String) (status1 : Labels) (status2 : Option Labels)
    → reports (second_statuses peer (some status1) (p, status2, some message))
      ≡ failed_entry peer message ∷ failed_entry peer message ∷ []
unfolding reports second_statuses
reports-lost peer p message status1 status2 = rw (report-inject_err peer message (some status1))
