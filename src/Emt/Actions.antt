-- ===== src/Emt/Actions.antt =====
-- src/core/mesh/core/emt_cmd.h: the sections of the mesh daemon's command line and the actions of
-- each, with the `int` that C gives to each enumerator.
use noc_demo.Common.{ℕ}

pub data Section : Type 0 where
  debug md ev_loop ieee1905 hy_manager wlan_manager mc_manager multi_ap : Section
  service_priority topology dispatch_service dbg_service stadb map_ctrl pc_service : Section
  steer_exec band_mon estimator steer_alg : Section

unfoldable pub section_int : Section → ℕ
section_int Section.debug = 0
section_int Section.md = 1
section_int Section.ev_loop = 2
section_int Section.ieee1905 = 3
section_int Section.hy_manager = 4
section_int Section.wlan_manager = 5
section_int Section.mc_manager = 6
section_int Section.multi_ap = 7
section_int Section.service_priority = 8
section_int Section.topology = 9
section_int Section.dispatch_service = 10
section_int Section.dbg_service = 11
section_int Section.stadb = 12
section_int Section.map_ctrl = 13
section_int Section.pc_service = 14
section_int Section.steer_exec = 15
section_int Section.band_mon = 16
section_int Section.estimator = 17
section_int Section.steer_alg = 18

pub data DebugAction : Type 0 where
  level here : DebugAction

unfoldable pub debug_action_int : DebugAction → ℕ
debug_action_int DebugAction.level = 0
debug_action_int DebugAction.here = 1

pub data MdAction : Type 0 where
  print set : MdAction

unfoldable pub md_action_int : MdAction → ℕ
md_action_int MdAction.print = 0
md_action_int MdAction.set = 1

pub data EvloopAction : Type 0 where
  print : EvloopAction

unfoldable pub evloop_action_int : EvloopAction → ℕ
evloop_action_int EvloopAction.print = 0

pub data Ieee1905Action : Type 0 where
  print set : Ieee1905Action

unfoldable pub ieee1905_action_int : Ieee1905Action → ℕ
ieee1905_action_int Ieee1905Action.print = 0
ieee1905_action_int Ieee1905Action.set = 1

pub data HyManagerAction : Type 0 where
  prind_hd prind_ha flush_ha flush_hd : HyManagerAction

unfoldable pub hy_manager_action_int : HyManagerAction → ℕ
hy_manager_action_int HyManagerAction.prind_hd = 0
hy_manager_action_int HyManagerAction.prind_ha = 1
hy_manager_action_int HyManagerAction.flush_ha = 2
hy_manager_action_int HyManagerAction.flush_hd = 3

pub data WlanManagerAction : Type 0 where
  freq print : WlanManagerAction

unfoldable pub wlan_manager_action_int : WlanManagerAction → ℕ
wlan_manager_action_int WlanManagerAction.freq = 0
wlan_manager_action_int WlanManagerAction.print = 1

pub data McManagerAction : Type 0 where
  print_encap print_flood_table print_interface : McManagerAction

unfoldable pub mc_manager_action_int : McManagerAction → ℕ
mc_manager_action_int McManagerAction.print_encap = 0
mc_manager_action_int McManagerAction.print_flood_table = 1
mc_manager_action_int McManagerAction.print_interface = 2

pub data MultiApAction : Type 0 where
  display_status unassocmetquery bkscan scanreport homechanrank chanprefquery : MultiApAction
  chanprefdump triggerchansel bstamet bhs scanreq neighreport cacreq : MultiApAction
  cacterminate : MultiApAction

unfoldable pub multi_ap_action_int : MultiApAction → ℕ
multi_ap_action_int MultiApAction.display_status = 0
multi_ap_action_int MultiApAction.unassocmetquery = 1
multi_ap_action_int MultiApAction.bkscan = 2
multi_ap_action_int MultiApAction.scanreport = 3
multi_ap_action_int MultiApAction.homechanrank = 4
multi_ap_action_int MultiApAction.chanprefquery = 5
multi_ap_action_int MultiApAction.chanprefdump = 6
multi_ap_action_int MultiApAction.triggerchansel = 7
multi_ap_action_int MultiApAction.bstamet = 8
multi_ap_action_int MultiApAction.bhs = 9
multi_ap_action_int MultiApAction.scanreq = 10
multi_ap_action_int MultiApAction.neighreport = 11
multi_ap_action_int MultiApAction.cacreq = 12
multi_ap_action_int MultiApAction.cacterminate = 13

pub data ServicePriorityAction : Type 0 where
  display_service bsp esp qsp rm_service_priority push_all_rule_to_agent : ServicePriorityAction

unfoldable pub service_priority_action_int : ServicePriorityAction → ℕ
service_priority_action_int ServicePriorityAction.display_service = 0
service_priority_action_int ServicePriorityAction.bsp = 1
service_priority_action_int ServicePriorityAction.esp = 2
service_priority_action_int ServicePriorityAction.qsp = 3
service_priority_action_int ServicePriorityAction.rm_service_priority = 4
service_priority_action_int ServicePriorityAction.push_all_rule_to_agent = 5

pub data TopologyAction : Type 0 where
  s s1 s2 param_access_cmd add_entry_to_topo ab ai f t1 t2 d g me dis discovery : TopologyAction
  notify radiocap rmid smid : TopologyAction

unfoldable pub topology_action_int : TopologyAction → ℕ
topology_action_int TopologyAction.s = 0
topology_action_int TopologyAction.s1 = 1
topology_action_int TopologyAction.s2 = 2
topology_action_int TopologyAction.param_access_cmd = 3
topology_action_int TopologyAction.add_entry_to_topo = 4
topology_action_int TopologyAction.ab = 5
topology_action_int TopologyAction.ai = 6
topology_action_int TopologyAction.f = 7
topology_action_int TopologyAction.t1 = 8
topology_action_int TopologyAction.t2 = 9
topology_action_int TopologyAction.d = 10
topology_action_int TopologyAction.g = 11
topology_action_int TopologyAction.me = 12
topology_action_int TopologyAction.dis = 13
topology_action_int TopologyAction.discovery = 14
topology_action_int TopologyAction.notify = 15
topology_action_int TopologyAction.radiocap = 16
topology_action_int TopologyAction.rmid = 17
topology_action_int TopologyAction.smid = 18

pub data DispatchServiceAction : Type 0 where
  print : DispatchServiceAction

unfoldable pub dispatch_service_action_int : DispatchServiceAction → ℕ
dispatch_service_action_int DispatchServiceAction.print = 0

pub data DbgServiceAction : Type 0 where
  list_all_events create_event : DbgServiceAction

unfoldable pub dbg_service_action_int : DbgServiceAction → ℕ
dbg_service_action_int DbgServiceAction.list_all_events = 0
dbg_service_action_int DbgServiceAction.create_event = 1

pub data StadbAction : Type 0 where
  print ena_dis rssi act nosteer nosteer_list_reload nosteer_list_show dialog : StadbAction

unfoldable pub stadb_action_int : StadbAction → ℕ
stadb_action_int StadbAction.print = 0
stadb_action_int StadbAction.ena_dis = 1
stadb_action_int StadbAction.rssi = 2
stadb_action_int StadbAction.act = 3
stadb_action_int StadbAction.nosteer = 4
stadb_action_int StadbAction.nosteer_list_reload = 5
stadb_action_int StadbAction.nosteer_list_show = 6
stadb_action_int StadbAction.dialog = 7

pub data MapctrlAction : Type 0 where
  print_summary print_neigh_report : MapctrlAction

unfoldable pub mapctrl_action_int : MapctrlAction → ℕ
mapctrl_action_int MapctrlAction.print_summary = 0
mapctrl_action_int MapctrlAction.print_neigh_report = 1

pub data PcServiceAction : Type 0 where
  print param_access trigger_stat set_debug set_medium_ultilization : PcServiceAction
  set_link_capacity print_module_metric : PcServiceAction

unfoldable pub pc_service_action_int : PcServiceAction → ℕ
pc_service_action_int PcServiceAction.print = 0
pc_service_action_int PcServiceAction.param_access = 1
pc_service_action_int PcServiceAction.trigger_stat = 2
pc_service_action_int PcServiceAction.set_debug = 3
pc_service_action_int PcServiceAction.set_medium_ultilization = 4
pc_service_action_int PcServiceAction.set_link_capacity = 5
pc_service_action_int PcServiceAction.print_module_metric = 6

pub data SteerExecAction : Type 0 where
  print steer allow_assoc abort dialog : SteerExecAction

unfoldable pub steer_exec_action_int : SteerExecAction → ℕ
steer_exec_action_int SteerExecAction.print = 0
steer_exec_action_int SteerExecAction.steer = 1
steer_exec_action_int SteerExecAction.allow_assoc = 2
steer_exec_action_int SteerExecAction.abort = 3
steer_exec_action_int SteerExecAction.dialog = 4

pub data BandMonAction : Type 0 where
  print ena_dis_monitor util : BandMonAction

unfoldable pub band_mon_action_int : BandMonAction → ℕ
band_mon_action_int BandMonAction.print = 0
band_mon_action_int BandMonAction.ena_dis_monitor = 1
band_mon_action_int BandMonAction.util = 2

pub data EstimatorAction : Type 0 where
  print rate airtime ena_dis detect stats dialog : EstimatorAction

unfoldable pub estimator_action_int : EstimatorAction → ℕ
estimator_action_int EstimatorAction.print = 0
estimator_action_int EstimatorAction.rate = 1
estimator_action_int EstimatorAction.airtime = 2
estimator_action_int EstimatorAction.ena_dis = 3
estimator_action_int EstimatorAction.detect = 4
estimator_action_int EstimatorAction.stats = 5
estimator_action_int EstimatorAction.dialog = 6

pub data SteeralgAction : Type 0 where
  print_alg print_path_capacity : SteeralgAction

unfoldable pub steeralg_action_int : SteeralgAction → ℕ
steeralg_action_int SteeralgAction.print_alg = 0
steeralg_action_int SteeralgAction.print_path_capacity = 1
