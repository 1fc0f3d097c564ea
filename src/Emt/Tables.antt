-- ===== src/Emt/Tables.antt =====
-- src/core/mesh/core/emt_cmd.c: the tables of command words. An entry is an `int` and a word.
use noc_demo.Common.{ℕ, List, [], ◌∷◌}
use noc_demo.Common.Texts.{Text, codes}
use noc_demo.Emt.Actions.{
  section_int, Section, debug_action_int, DebugAction, md_action_int, MdAction, evloop_action_int,
  EvloopAction, ieee1905_action_int, Ieee1905Action, hy_manager_action_int, HyManagerAction,
  wlan_manager_action_int, WlanManagerAction, mc_manager_action_int, McManagerAction,
  multi_ap_action_int, MultiApAction, service_priority_action_int, ServicePriorityAction,
  topology_action_int, TopologyAction, dispatch_service_action_int, DispatchServiceAction,
  dbg_service_action_int, DbgServiceAction, stadb_action_int, StadbAction, mapctrl_action_int,
  MapctrlAction, pc_service_action_int, PcServiceAction, steer_exec_action_int, SteerExecAction,
  band_mon_action_int, BandMonAction, estimator_action_int, EstimatorAction, steeralg_action_int,
  SteeralgAction,
}

unfoldable pub section_mapping_cmd : List (ℕ × Text)
unfolding section_int
section_mapping_cmd =
    (section_int Section.debug, codes "dbg")
    ∷ (section_int Section.md, codes "md")
    ∷ (section_int Section.ev_loop, codes "evloop")
    ∷ (section_int Section.ieee1905, codes "ieee1905")
    ∷ (section_int Section.hy_manager, codes "hy")
    ∷ (section_int Section.wlan_manager, codes "wlan")
    ∷ (section_int Section.mc_manager, codes "mc")
    ∷ (section_int Section.multi_ap, codes "map")
    ∷ (section_int Section.service_priority, codes "sp")
    ∷ (section_int Section.topology, codes "td")
    ∷ (section_int Section.dispatch_service, codes "dispatchService")
    ∷ (section_int Section.dbg_service, codes "dbgService")
    ∷ (section_int Section.stadb, codes "stadb")
    ∷ (section_int Section.map_ctrl, codes "mapctrl")
    ∷ (section_int Section.pc_service, codes "pc")
    ∷ (section_int Section.steer_exec, codes "steerexec")
    ∷ (section_int Section.band_mon, codes "bandmon")
    ∷ (section_int Section.estimator, codes "estimator")
    ∷ (section_int Section.steer_alg, codes "steeralg")
    ∷ []

unfoldable pub debug_action_cmd : List (ℕ × Text)
unfolding debug_action_int
debug_action_cmd =
    (debug_action_int DebugAction.level, codes "level")
    ∷ (debug_action_int DebugAction.level, codes "here")
    ∷ []

unfoldable pub md_action_cmd : List (ℕ × Text)
unfolding md_action_int
md_action_cmd =
    (md_action_int MdAction.print, codes "p") ∷ (md_action_int MdAction.set, codes "s") ∷ []

unfoldable pub evloop_action_cmd : List (ℕ × Text)
unfolding evloop_action_int
evloop_action_cmd = (evloop_action_int EvloopAction.print, codes "s") ∷ []

unfoldable pub ieee1905_action_cmd : List (ℕ × Text)
unfolding ieee1905_action_int
ieee1905_action_cmd =
    (ieee1905_action_int Ieee1905Action.print, codes "p")
    ∷ (ieee1905_action_int Ieee1905Action.set, codes "s")
    ∷ []

unfoldable pub hy_manager_action_cmd : List (ℕ × Text)
unfolding hy_manager_action_int
hy_manager_action_cmd =
    (hy_manager_action_int HyManagerAction.prind_hd, codes "hd")
    ∷ (hy_manager_action_int HyManagerAction.prind_ha, codes "ha")
    ∷ (hy_manager_action_int HyManagerAction.flush_ha, codes "fa")
    ∷ (hy_manager_action_int HyManagerAction.flush_hd, codes "fd")
    ∷ []

unfoldable pub wlan_manager_action_cmd : List (ℕ × Text)
unfolding wlan_manager_action_int
wlan_manager_action_cmd =
    (wlan_manager_action_int WlanManagerAction.freq, codes "freq")
    ∷ (wlan_manager_action_int WlanManagerAction.print, codes "p")
    ∷ []

unfoldable pub mc_manager_action_cmd : List (ℕ × Text)
unfolding mc_manager_action_int
mc_manager_action_cmd =
    (mc_manager_action_int McManagerAction.print_encap, codes "encap")
    ∷ (mc_manager_action_int McManagerAction.print_flood_table, codes "flood")
    ∷ (mc_manager_action_int McManagerAction.print_interface, codes "iffwd")
    ∷ []

unfoldable pub multi_ap_action_cmd : List (ℕ × Text)
unfolding multi_ap_action_int
multi_ap_action_cmd =
    (multi_ap_action_int MultiApAction.display_status, codes "s")
    ∷ (multi_ap_action_int MultiApAction.unassocmetquery, codes "unassocmetquery")
    ∷ (multi_ap_action_int MultiApAction.bkscan, codes "bkscan")
    ∷ (multi_ap_action_int MultiApAction.scanreport, codes "scanreport")
    ∷ (multi_ap_action_int MultiApAction.homechanrank, codes "homechanrank")
    ∷ (multi_ap_action_int MultiApAction.chanprefquery, codes "chanprefquery")
    ∷ (multi_ap_action_int MultiApAction.chanprefdump, codes "chanprefdump")
    ∷ (multi_ap_action_int MultiApAction.triggerchansel, codes "triggerchansel")
    ∷ (multi_ap_action_int MultiApAction.bstamet, codes "bstamet")
    ∷ (multi_ap_action_int MultiApAction.bhs, codes "bhs")
    ∷ (multi_ap_action_int MultiApAction.scanreq, codes "scanReq")
    ∷ (multi_ap_action_int MultiApAction.neighreport, codes "neighReport")
    ∷ (multi_ap_action_int MultiApAction.cacreq, codes "cacreq")
    ∷ (multi_ap_action_int MultiApAction.cacterminate, codes "cacterminate")
    ∷ []

unfoldable pub service_priority_action_cmd : List (ℕ × Text)
unfolding service_priority_action_int
service_priority_action_cmd =
    (service_priority_action_int ServicePriorityAction.display_service, codes "s")
    ∷ (service_priority_action_int ServicePriorityAction.bsp, codes "bsp")
    ∷ (service_priority_action_int ServicePriorityAction.esp, codes "esp")
    ∷ (service_priority_action_int ServicePriorityAction.qsp, codes "qsp")
    ∷ (service_priority_action_int ServicePriorityAction.rm_service_priority, codes "rmsprule")
    ∷ (service_priority_action_int ServicePriorityAction.push_all_rule_to_agent, codes "pusall")
    ∷ []

unfoldable pub topology_action_cmd : List (ℕ × Text)
unfolding topology_action_int
topology_action_cmd =
    (topology_action_int TopologyAction.s, codes "s")
    ∷ (topology_action_int TopologyAction.s1, codes "s1")
    ∷ (topology_action_int TopologyAction.s2, codes "s2")
    ∷ (topology_action_int TopologyAction.param_access_cmd, codes "p")
    ∷ (topology_action_int TopologyAction.add_entry_to_topo, codes "a")
    ∷ (topology_action_int TopologyAction.ab, codes "ab")
    ∷ (topology_action_int TopologyAction.ai, codes "ai")
    ∷ (topology_action_int TopologyAction.f, codes "f")
    ∷ (topology_action_int TopologyAction.t1, codes "t1")
    ∷ (topology_action_int TopologyAction.t2, codes "t2")
    ∷ (topology_action_int TopologyAction.d, codes "d")
    ∷ (topology_action_int TopologyAction.g, codes "g")
    ∷ (topology_action_int TopologyAction.me, codes "me")
    ∷ (topology_action_int TopologyAction.dis, codes "dis")
    ∷ (topology_action_int TopologyAction.discovery, codes "dicovery")
    ∷ (topology_action_int TopologyAction.notify, codes "notify")
    ∷ (topology_action_int TopologyAction.radiocap, codes "radiocap")
    ∷ (topology_action_int TopologyAction.rmid, codes "rmid")
    ∷ (topology_action_int TopologyAction.smid, codes "smid")
    ∷ []

unfoldable pub dispatch_service_action_cmd : List (ℕ × Text)
unfolding dispatch_service_action_int
dispatch_service_action_cmd =
    (dispatch_service_action_int DispatchServiceAction.print, codes "s") ∷ []

unfoldable pub dbg_service_action_cmd : List (ℕ × Text)
unfolding dbg_service_action_int
dbg_service_action_cmd =
    (dbg_service_action_int DbgServiceAction.list_all_events, codes "s")
    ∷ (dbg_service_action_int DbgServiceAction.create_event, codes "c")
    ∷ []

unfoldable pub stadb_action_cmd : List (ℕ × Text)
unfolding stadb_action_int
stadb_action_cmd =
    (stadb_action_int StadbAction.print, codes "s")
    ∷ (stadb_action_int StadbAction.ena_dis, codes "d")
    ∷ (stadb_action_int StadbAction.rssi, codes "rssi")
    ∷ (stadb_action_int StadbAction.act, codes "act")
    ∷ (stadb_action_int StadbAction.nosteer, codes "nosteer")
    ∷ (stadb_action_int StadbAction.nosteer_list_reload, codes "nosteerlistreload")
    ∷ (stadb_action_int StadbAction.nosteer_list_show, codes "nosteerlistshow")
    ∷ (stadb_action_int StadbAction.dialog, codes "diaglog")
    ∷ []

unfoldable pub mapctrl_action_cmd : List (ℕ × Text)
unfolding mapctrl_action_int
mapctrl_action_cmd =
    (mapctrl_action_int MapctrlAction.print_summary, codes "s")
    ∷ (mapctrl_action_int MapctrlAction.print_neigh_report, codes "d")
    ∷ []

unfoldable pub pc_service_action_cmd : List (ℕ × Text)
unfolding pc_service_action_int
pc_service_action_cmd =
    (pc_service_action_int PcServiceAction.print, codes "s")
    ∷ (pc_service_action_int PcServiceAction.param_access, codes "p")
    ∷ (pc_service_action_int PcServiceAction.trigger_stat, codes "t")
    ∷ (pc_service_action_int PcServiceAction.set_debug, codes "d")
    ∷ (pc_service_action_int PcServiceAction.set_medium_ultilization, codes "m")
    ∷ (pc_service_action_int PcServiceAction.set_link_capacity, codes "lc")
    ∷ (pc_service_action_int PcServiceAction.print_module_metric, codes "pm")
    ∷ []

unfoldable pub steer_exec_action_cmd : List (ℕ × Text)
unfolding steer_exec_action_int
steer_exec_action_cmd =
    (steer_exec_action_int SteerExecAction.print, codes "s")
    ∷ (steer_exec_action_int SteerExecAction.steer, codes "steer")
    ∷ (steer_exec_action_int SteerExecAction.allow_assoc, codes "allow_assoc")
    ∷ (steer_exec_action_int SteerExecAction.abort, codes "abort")
    ∷ (steer_exec_action_int SteerExecAction.dialog, codes "diaglog")
    ∷ []

unfoldable pub band_mon_action_cmd : List (ℕ × Text)
unfolding band_mon_action_int
band_mon_action_cmd =
    (band_mon_action_int BandMonAction.print, codes "s")
    ∷ (band_mon_action_int BandMonAction.ena_dis_monitor, codes "d")
    ∷ (band_mon_action_int BandMonAction.util, codes "util")
    ∷ []

unfoldable pub estimator_action_cmd : List (ℕ × Text)
unfolding estimator_action_int
estimator_action_cmd =
    (estimator_action_int EstimatorAction.print, codes "s")
    ∷ (estimator_action_int EstimatorAction.rate, codes "rate")
    ∷ (estimator_action_int EstimatorAction.airtime, codes "airtime")
    ∷ (estimator_action_int EstimatorAction.ena_dis, codes "d")
    ∷ (estimator_action_int EstimatorAction.detect, codes "detect")
    ∷ (estimator_action_int EstimatorAction.stats, codes "stats")
    ∷ (estimator_action_int EstimatorAction.dialog, codes "diaglog")
    ∷ []

unfoldable pub steeralg_action_cmd : List (ℕ × Text)
unfolding steeralg_action_int
steeralg_action_cmd =
    (steeralg_action_int SteeralgAction.print_alg, codes "s")
    ∷ (steeralg_action_int SteeralgAction.print_path_capacity, codes "pc")
    ∷ []
