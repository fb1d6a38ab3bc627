-- ===== src/FrameTypes.antt =====
-- user/src/ft_parser.h and user/src/ft_parser.c: frame types, subtypes and their printed names, and
-- the number of fixed bytes before the information elements of a management frame. common/common.h:
-- the direction of a frame.
--
-- A C enumeration is a data type with the source's constructors and a table of their values. The C
-- functions are called with any `uint8_t`, so they take a number here, and a value that no case of
-- the switch names takes the `return` behind the switch.
pub mod Names
use wifi_sniffer.Prelude.{ℕ, String, Option, none, some, List, [], ◌∷◌, ◌==◌, if◌then◌else◌}

-- The case of a switch that a value selects.
unfoldable pub select {ℓ} : {A : Type ℓ} → List (ℕ × A) → ℕ → Option A
select [] n = none
select ((k, a) ∷ t) n = if k == n then some a else select t n

-- A switch over an enumeration whose cases return a label.
abbrev pub label_of {ℓ} : {A : Type ℓ} → (A → String) → Option A → String
label_of f none = "UNKNOWN"
label_of f (some a) = f a

pub data FrameType : Type 0 where
  t_management t_control t_data : FrameType

abbrev pub frame_types : List (ℕ × FrameType)
frame_types = (0, t_management) ∷ (1, t_control) ∷ (2, t_data) ∷ []

unfoldable pub frame_name : FrameType → String
frame_name t_management = "MANAGEMENT"
frame_name t_control = "CONTROL"
frame_name t_data = "DATA"

unfoldable pub frame_t_to_string : ℕ → String
unfolding select frame_name
frame_t_to_string t = label_of frame_name (select frame_types t)

pub data ManagementType : Type 0 where
  m_association_request m_association_response m_reassociation_request m_reassociation_response :
      ManagementType
  m_probe_request m_probe_response m_timing_advertisement m_beacon m_atim m_disassociation :
      ManagementType
  m_authentication m_deauthentication m_action m_action_noack : ManagementType

abbrev pub management_types : List (ℕ × ManagementType)
management_types =
    (0, m_association_request)
    ∷ (1, m_association_response)
    ∷ (2, m_reassociation_request)
    ∷ (3, m_reassociation_response)
    ∷ (4, m_probe_request)
    ∷ (5, m_probe_response)
    ∷ (6, m_timing_advertisement)
    ∷ (8, m_beacon)
    ∷ (9, m_atim)
    ∷ (10, m_disassociation)
    ∷ (11, m_authentication)
    ∷ (12, m_deauthentication)
    ∷ (13, m_action)
    ∷ (14, m_action_noack)
    ∷ []

unfoldable pub m_frame_name : ManagementType → String
m_frame_name m_association_request = "ASSOCIATION REQUEST"
m_frame_name m_association_response = "ASSOCIATION RESPONSE"
m_frame_name m_reassociation_request = "REASSOCIATION REQUEST"
m_frame_name m_reassociation_response = "REASSOCIATION RESPONSE"
m_frame_name m_probe_request = "PROBE REQUEST"
m_frame_name m_probe_response = "PROBE RESPONSE"
m_frame_name m_timing_advertisement = "TIMING ADVERTISEMENT"
m_frame_name m_beacon = "BEACON"
m_frame_name m_atim = "ATIM"
m_frame_name m_disassociation = "DISASSOCIATION"
m_frame_name m_authentication = "AUTHENTICATION"
m_frame_name m_deauthentication = "DEAUTHENTICATION"
m_frame_name m_action = "ACTION"
m_frame_name m_action_noack = "NO ACK"

unfoldable pub m_frame_to_string : ℕ → String
unfolding select m_frame_name
m_frame_to_string t = label_of m_frame_name (select management_types t)

pub data ControlType : Type 0 where
  c_trigger c_tack c_beamforming_report_poll c_ndp_announcement c_control_frame_ext : ControlType
  c_control_wrapper c_block_ack_request c_block_ack c_ps_poll c_rts c_cts c_ack cf_end : ControlType
  cf_end_cf_ack : ControlType

abbrev pub control_types : List (ℕ × ControlType)
control_types =
    (2, c_trigger)
    ∷ (3, c_tack)
    ∷ (4, c_beamforming_report_poll)
    ∷ (5, c_ndp_announcement)
    ∷ (6, c_control_frame_ext)
    ∷ (7, c_control_wrapper)
    ∷ (8, c_block_ack_request)
    ∷ (9, c_block_ack)
    ∷ (10, c_ps_poll)
    ∷ (11, c_rts)
    ∷ (12, c_cts)
    ∷ (13, c_ack)
    ∷ (14, cf_end)
    ∷ (15, cf_end_cf_ack)
    ∷ []

unfoldable pub c_frame_name : ControlType → String
c_frame_name c_trigger = "TRIGGER"
c_frame_name c_tack = "TACK"
c_frame_name c_beamforming_report_poll = "BEAMFORMING REPORT POLL"
c_frame_name c_ndp_announcement = "NDP ANNOUNCEMENT"
c_frame_name c_control_frame_ext = "CONTROL FRAME EXTENSION"
c_frame_name c_control_wrapper = "CONTROL WRAPPER"
c_frame_name c_block_ack_request = "BLOCK ACK REQUEST"
c_frame_name c_block_ack = "BLOCK ACK"
c_frame_name c_ps_poll = "PS POLL"
c_frame_name c_rts = "RTS"
c_frame_name c_cts = "CTS"
c_frame_name c_ack = "ACK"
c_frame_name cf_end = "CF-END"
c_frame_name cf_end_cf_ack = "CF-END + CF-ACK"

unfoldable pub c_frame_to_string : ℕ → String
unfolding select c_frame_name
c_frame_to_string t = label_of c_frame_name (select control_types t)

pub data DataType : Type 0 where
  d_data d_null d_qos_data d_qos_null : DataType

abbrev pub data_types : List (ℕ × DataType)
data_types = (0, d_data) ∷ (4, d_null) ∷ (8, d_qos_data) ∷ (12, d_qos_null) ∷ []

unfoldable pub d_frame_name : DataType → String
d_frame_name d_data = "DATA"
d_frame_name d_null = "NULL DATA"
d_frame_name d_qos_data = "QoS DATA"
d_frame_name d_qos_null = "QoS NULL DATA"

unfoldable pub d_frame_to_string : ℕ → String
unfolding select d_frame_name
d_frame_to_string t = label_of d_frame_name (select data_types t)

pub data FrameDirection : Type 0 where
  client_to_client client_to_ap ap_to_client ap_to_ap : FrameDirection

-- The default is left out: `FrameDirection` has no other value, and reading one is a fault.
unfoldable pub frame_direction_to_string : FrameDirection → String
frame_direction_to_string client_to_client = "CLIENT TO CLIENT"
frame_direction_to_string client_to_ap = "CLIENT TO AP"
frame_direction_to_string ap_to_client = "AP TO CLIENT"
frame_direction_to_string ap_to_ap = "AP TO AP"

unfoldable pub sub_frame_string : ℕ → ℕ → String
unfolding select m_frame_to_string c_frame_to_string d_frame_to_string
sub_frame_string t st = elim (select frame_types t) [
  | none ↦ "UNKNOWN"
  | some f ↦ elim f [
    | t_management ↦ m_frame_to_string st
    | t_control ↦ c_frame_to_string st
    | t_data ↦ d_frame_to_string st
  ]
]

unfoldable pub fixed_params : ManagementType → ℕ
fixed_params m_beacon = 12
fixed_params m_timing_advertisement = 12
fixed_params m_probe_response = 12
fixed_params m_action = 2
fixed_params m_action_noack = 2
fixed_params m_disassociation = 2
fixed_params m_deauthentication = 2
fixed_params m_atim = 0
fixed_params m_probe_request = 0
fixed_params m_association_request = 4
fixed_params m_authentication = 6
fixed_params m_association_response = 6
fixed_params m_reassociation_request = 6
fixed_params m_reassociation_response = 6

abbrev pub fixed_of : Option ManagementType → ℕ
fixed_of none = 0
fixed_of (some t) = fixed_params t

unfoldable pub mgmt_fixed_params : ℕ → ℕ
unfolding select fixed_params
mgmt_fixed_params frame_st = fixed_of (select management_types frame_st)
