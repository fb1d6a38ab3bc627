-- ===== src/ActionFrames.antt =====
-- user/src/action_frame_parser.h and user/src/action_frame_parser.c: the printed names of the
-- categories and codes of action frames. As in `FrameTypes`, an enumeration is a data type with a
-- table of its values, and the functions take any number.
use wifi_sniffer.Prelude.{ℕ, String, none, some, List, [], ◌∷◌}
use wifi_sniffer.FrameTypes.{select, label_of}

pub data ActionCat : Type 0 where
  spectrum_management qos dls block_ack public radio_measurement fast_bss_transition ht : ActionCat
  sa_query protected_dual_of_public vht he : ActionCat

abbrev pub action_cats : List (ℕ × ActionCat)
action_cats =
    (0, spectrum_management)
    ∷ (1, qos)
    ∷ (2, dls)
    ∷ (3, block_ack)
    ∷ (4, public)
    ∷ (5, radio_measurement)
    ∷ (6, fast_bss_transition)
    ∷ (7, ht)
    ∷ (8, sa_query)
    ∷ (9, protected_dual_of_public)
    ∷ (21, vht)
    ∷ (25, he)
    ∷ []

unfoldable pub action_cat_name : ActionCat → String
action_cat_name spectrum_management = "SPECTRUM MANAGEMENT"
action_cat_name qos = "QoS"
action_cat_name dls = "DLS"
action_cat_name block_ack = "BLOCK ACK"
action_cat_name public = "PUBLIC"
action_cat_name radio_measurement = "RADIO MEASUREMENT"
action_cat_name fast_bss_transition = "FAST BSS TRANSITION"
action_cat_name ht = "HIGH THROUGHPUT"
action_cat_name sa_query = "SA QUERY"
action_cat_name protected_dual_of_public = "PROTECTED DUAL OF PUBLIC"
action_cat_name vht = "VERY HIGH THROUGHPUT"
action_cat_name he = "HE"

unfoldable pub action_cat_to_string : ℕ → String
unfolding select action_cat_name
action_cat_to_string cat = label_of action_cat_name (select action_cats cat)

pub data SpectrumManagementAction : Type 0 where
  measurement_request measurement_report tpc_request tpc_report channel_switch_announcement :
      SpectrumManagementAction

abbrev pub spectrummgmt_actions : List (ℕ × SpectrumManagementAction)
spectrummgmt_actions =
    (0, measurement_request)
    ∷ (1, measurement_report)
    ∷ (2, tpc_request)
    ∷ (3, tpc_report)
    ∷ (4, channel_switch_announcement)
    ∷ []

unfoldable pub spectrummgmt_action_name : SpectrumManagementAction → String
spectrummgmt_action_name measurement_request = "MEASUREMENT REQUEST"
spectrummgmt_action_name measurement_report = "MEASUREMENT REPORT"
spectrummgmt_action_name tpc_request = "TPC REQUEST"
spectrummgmt_action_name tpc_report = "TPC REPORT"
spectrummgmt_action_name channel_switch_announcement = "CHANNEL SWITCH ANNOUNCEMENT"

unfoldable pub spectrummgmt_action_to_string : ℕ → String
unfolding select spectrummgmt_action_name
spectrummgmt_action_to_string code =
    label_of spectrummgmt_action_name (select spectrummgmt_actions code)

pub data QosAction : Type 0 where
  addts_request addts_response delts schedule qos_map_conf : QosAction

abbrev pub qos_actions : List (ℕ × QosAction)
qos_actions =
    (0, addts_request) ∷ (1, addts_response) ∷ (2, delts) ∷ (3, schedule) ∷ (4, qos_map_conf) ∷ []

unfoldable pub qos_action_name : QosAction → String
qos_action_name addts_request = "ADDTS REQUEST"
qos_action_name addts_response = "ADDTS RESPONSE"
qos_action_name delts = "DELTS"
qos_action_name schedule = "SCHEDULE"
qos_action_name qos_map_conf = "QoS MAP CONFIG"

unfoldable pub qos_action_to_string : ℕ → String
unfolding select qos_action_name
qos_action_to_string code = label_of qos_action_name (select qos_actions code)

pub data DlsAction : Type 0 where
  dls_request dls_response dls_teardown : DlsAction

abbrev pub dls_actions : List (ℕ × DlsAction)
dls_actions = (0, dls_request) ∷ (1, dls_response) ∷ (2, dls_teardown) ∷ []

unfoldable pub dls_action_name : DlsAction → String
dls_action_name dls_request = "DLS REQUEST"
dls_action_name dls_response = "DLS RESPONSE"
dls_action_name dls_teardown = "DLS TEARDOWN"

unfoldable pub dls_action_to_string : ℕ → String
unfolding select dls_action_name
dls_action_to_string code = label_of dls_action_name (select dls_actions code)

pub data BlockAckAction : Type 0 where
  addba_request addba_response delba : BlockAckAction

abbrev pub blockack_actions : List (ℕ × BlockAckAction)
blockack_actions = (0, addba_request) ∷ (1, addba_response) ∷ (2, delba) ∷ []

unfoldable pub blockack_action_name : BlockAckAction → String
blockack_action_name addba_request = "ADDBA REQUEST"
blockack_action_name addba_response = "ADDBA RESPONSE"
blockack_action_name delba = "DELBA"

unfoldable pub blockack_action_to_string : ℕ → String
unfolding select blockack_action_name
blockack_action_to_string code = label_of blockack_action_name (select blockack_actions code)

pub data RadioMeasurementAction : Type 0 where
  radio_measurement_request radio_measurement_report link_measurement_request :
      RadioMeasurementAction
  link_measurement_report neighbour_report_request neighbour_report_response :
      RadioMeasurementAction

abbrev pub rmeasurement_actions : List (ℕ × RadioMeasurementAction)
rmeasurement_actions =
    (0, radio_measurement_request)
    ∷ (1, radio_measurement_report)
    ∷ (2, link_measurement_request)
    ∷ (3, link_measurement_report)
    ∷ (4, neighbour_report_request)
    ∷ (5, neighbour_report_response)
    ∷ []

unfoldable pub rmeasurement_action_name : RadioMeasurementAction → String
rmeasurement_action_name radio_measurement_request = "RADIO MEASUREMENT REQUEST"
rmeasurement_action_name radio_measurement_report = "RADIO MEASUREMENT REPORT"
rmeasurement_action_name link_measurement_request = "LINK MEASUREMENT REQUEST"
rmeasurement_action_name link_measurement_report = "LINK MEASUREMENT REPORT"
rmeasurement_action_name neighbour_report_request = "NEIGHBOUR REPORT REQUEST"
rmeasurement_action_name neighbour_report_response = "NEIGHBOUR REPORT RESPONSE"

unfoldable pub rmeasurement_action_to_string : ℕ → String
unfolding select rmeasurement_action_name
rmeasurement_action_to_string code =
    label_of rmeasurement_action_name (select rmeasurement_actions code)

pub data FastBssTransitionAction : Type 0 where
  ft_request ft_response ft_confirm ft_ack : FastBssTransitionAction

abbrev pub fbsstransition_actions : List (ℕ × FastBssTransitionAction)
fbsstransition_actions = (0, ft_request) ∷ (1, ft_response) ∷ (2, ft_confirm) ∷ (3, ft_ack) ∷ []

unfoldable pub fbsstransition_action_name : FastBssTransitionAction → String
fbsstransition_action_name ft_request = "FT REQUEST"
fbsstransition_action_name ft_response = "FT RESPONSE"
fbsstransition_action_name ft_confirm = "FT CONFIRM"
fbsstransition_action_name ft_ack = "FT ACK"

unfoldable pub fbsstransition_action_to_string : ℕ → String
unfolding select fbsstransition_action_name
fbsstransition_action_to_string code =
    label_of fbsstransition_action_name (select fbsstransition_actions code)

pub data HtAction : Type 0 where
  notify_channel_width sm_power_save pmsp set_pco_phase csi noncompressed_beamforming : HtAction
  compressed_beamforming asel_indices_feedback : HtAction

abbrev pub ht_actions : List (ℕ × HtAction)
ht_actions =
    (0, notify_channel_width)
    ∷ (1, sm_power_save)
    ∷ (2, pmsp)
    ∷ (3, set_pco_phase)
    ∷ (4, csi)
    ∷ (5, noncompressed_beamforming)
    ∷ (6, compressed_beamforming)
    ∷ (7, asel_indices_feedback)
    ∷ []

unfoldable pub ht_action_name : HtAction → String
ht_action_name notify_channel_width = "NOTIFY CHANNEL WIDTH"
ht_action_name sm_power_save = "SM POWER SAVE"
ht_action_name pmsp = "PMSP"
ht_action_name set_pco_phase = "SET PCO PHASE"
ht_action_name csi = "CSI"
ht_action_name noncompressed_beamforming = "NON-COMPRESSED BEAMFORMING"
ht_action_name compressed_beamforming = "COMPRESSED BEAMFORMING"
ht_action_name asel_indices_feedback = "ASEL INDICES FEEDBACK"

unfoldable pub ht_action_to_string : ℕ → String
unfolding select ht_action_name
ht_action_to_string code = label_of ht_action_name (select ht_actions code)

pub data SaQueryAction : Type 0 where
  sa_query_request sa_query_response : SaQueryAction

abbrev pub saquery_actions : List (ℕ × SaQueryAction)
saquery_actions = (0, sa_query_request) ∷ (1, sa_query_response) ∷ []

unfoldable pub saquery_action_name : SaQueryAction → String
saquery_action_name sa_query_request = "SA QUERY REQUEST"
saquery_action_name sa_query_response = "SA QUERY RESPONSE"

unfoldable pub saquery_action_to_string : ℕ → String
unfolding select saquery_action_name
saquery_action_to_string code = label_of saquery_action_name (select saquery_actions code)

-- The label of an action under a known category: four categories have one label for all codes.
unfoldable pub action_name : ActionCat → ℕ → String
unfolding spectrummgmt_action_to_string qos_action_to_string dls_action_to_string
    blockack_action_to_string rmeasurement_action_to_string fbsstransition_action_to_string
    ht_action_to_string saquery_action_to_string
action_name spectrum_management code = spectrummgmt_action_to_string code
action_name qos code = qos_action_to_string code
action_name dls code = dls_action_to_string code
action_name block_ack code = blockack_action_to_string code
action_name public code = "PUBLIC"
action_name radio_measurement code = rmeasurement_action_to_string code
action_name fast_bss_transition code = fbsstransition_action_to_string code
action_name ht code = ht_action_to_string code
action_name sa_query code = saquery_action_to_string code
action_name protected_dual_of_public code = "PROTECTED DUAL OF PUBLIC"
action_name vht code = "VERY HIGH THROUGHPUT"
action_name he code = "HE"

unfoldable pub action_to_string : ℕ → ℕ → String
unfolding select action_name
action_to_string cat code = elim (select action_cats cat) [
  | none ↦ "UNKNOWN"
  | some c ↦ action_name c code
]
