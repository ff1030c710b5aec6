-- ===== src/Control/Mysql.antt =====
-- `checkMysqlSlaveStatus` of pkg/controller/cluster/onecloud_cluster_control.go: the replication
-- status of the two database hosts, and what is notified of it.
use cloudpods_operator.Prelude.{
  String, ◌&&◌, ◌||◌, Option, none, some, List, [], ◌∷◌, str_eq, if◌then◌else◌, is_none,
}
use cloudpods_operator.Exec.{
  wrap, Reply, good, bad, Outcome, ok, err, panic, Exec, Void, ◌>>=◌, annotate, skip, pure,
}
use cloudpods_operator.Etcd.Types.{Labels}
use cloudpods_operator.Sync.Objects.{find, put}
use cloudpods_operator.Sync.Kube.{ask}

-- What `SHOW SLAVE STATUS` gives of a host, through a new connection; `none` is the nil map that
-- `ShowSlaveStatus` makes of an answer without a row.
pub record Database (W : Type 0) : Type 0 where
  pub show : String → W → Reply (Option Labels) × W
  -- the text of the error that `showSlaveStatus` would return
  pub describe : String → String
  pub notify : List Labels → W → Reply Void × W

abbrev pub value_or : String → Option String → String
value_or default none = default
value_or default (some v) = v

abbrev pub text_of : String → Labels → String
text_of key status = value_or "" (find key status)

abbrev pub labels_or_empty : Option Labels → Labels
labels_or_empty none = []
labels_or_empty (some m) = m

-- The peer, and the status where replication does not run. Into a nil map, which says no more than
-- that replication does not run, the address of the host cannot be written.
unfoldable pub judge : String → Option Labels → Outcome (String × Option Labels)
judge host none = panic
judge host (some status) =
    let peer = text_of "Master_Host" status in
    ok (
      if str_eq (text_of "Slave_IO_Running" status) "Yes"
        && str_eq (text_of "Slave_SQL_Running" status) "Yes"
      then (peer, none)
      else (peer, some (put "IP" host status)))

abbrev judged : Outcome (String × Option Labels) → Outcome (String × Option Labels × Option String)
judged (ok (peer, status)) = ok (peer, status, none)
judged (err e) = err e
judged panic = panic

-- `showSlaveStatus`; the last component is the error's text.
unfoldable pub shown :
    (String → String)
    → String
    → Reply (Option Labels)
    → Outcome (String × Option Labels × Option String)
unfolding judge
shown describe host (good status) = judged (judge host status)
shown describe host (bad e) = ok ("", none, some (describe host))

unfoldable pub inject_err : String → Option Labels → String → Labels
inject_err ip status message = put "IP" ip (put "Operator_Error" message (labels_or_empty status))

unfoldable pub first_status : String → String × Option Labels × Option String → Option Labels
first_status host (peer, status, none) = status
first_status host (peer, status, some message) = some (inject_err host status message)

-- The two statuses in the end. Where the second look-up has failed, `injectErr` gets the map of the
-- first status: it writes to that map, if there is one, and both statuses are then the same map.
unfoldable pub second_statuses :
    String → Option Labels → String × Option Labels × Option String → Option Labels × Option Labels
second_statuses peer status1 (p, status2, none) = (status1, status2)
second_statuses peer none (p, status2, some message) = (none, some (inject_err peer none message))
second_statuses peer (some m) (p, status2, some message) =
    (some (inject_err peer (some m) message), some (inject_err peer (some m) message))

-- `getStatus` of `notifyMysqlError`
abbrev pub entry_of : Option String → Labels → Labels
entry_of (some message) s =
    ("ip", text_of "IP" s) ∷ ("operator_error", text_of "Operator_Error" s) ∷ []
entry_of none s =
    ("ip", text_of "IP" s)
    ∷ ("slave_io_running", text_of "Slave_IO_Running" s)
    ∷ ("slave_sql_running", text_of "Slave_SQL_Running" s)
    ∷ ("last_error", text_of "Last_Error" s)
    ∷ ("last_io_error", text_of "Last_IO_Error" s)
    ∷ []

unfoldable pub report : Labels → Labels
report s = entry_of (find "Operator_Error" s) s

unfoldable pub reports : Option Labels × Option Labels → List Labels
unfolding report
reports (none, none) = []
reports (some a, none) = report a ∷ []
reports (none, some b) = report b ∷ []
reports (some a, some b) = report a ∷ report b ∷ []

module _ {W : Type 0} (database : Database W) where
  open database use {show, describe, notify}

  unfoldable pub show_slave_status : String → Exec W (String × Option Labels × Option String)
  show_slave_status host w = (shown describe host (show host w).0, (show host w).1)

  -- The second host is asked, and where its name is empty the configured one is asked in its place.
  unfoldable pub ask_peer : String → String → Exec W (String × Option Labels × Option String)
  ask_peer sql_host peer = do
    r ← show_slave_status peer
    if str_eq peer "" then show_slave_status sql_host else pure r

  unfoldable pub notify_mysql_error : Option Labels × Option Labels → Exec W Void
  notify_mysql_error (s, t) = if is_none s && is_none t then skip else ask (notify (reports (s, t)))

  unfoldable pub check_peers : String → String → Exec W Void
  check_peers sql_host master_host = do
    first ← show_slave_status master_host
    second ← ask_peer sql_host first.0
    notify_mysql_error (second_statuses first.0 (first_status master_host first) second)

  -- The configured host is asked for its status first; one that has no master is alone.
  unfoldable pub check_mysql_slave_status : String → String → String → Exec W Void
  check_mysql_slave_status host username password =
      if str_eq host "" || str_eq username "" || str_eq password "" then skip else (do
        status ← annotate wrap (ask (show host))
        if str_eq (text_of "Master_Host" (labels_or_empty status)) ""
            then skip
            else check_peers host (text_of "Master_Host" (labels_or_empty status)))
