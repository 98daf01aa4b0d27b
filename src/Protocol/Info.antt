-- ===== src/Protocol/Info.antt =====
-- The numbers of include/mpmpes/protocol/Info.hpp that the packets use.
use mpmpescore_cpp.Prelude.{ℕ}
use mpmpescore_cpp.Prelude.Bits.{bit_or}

abbrev pub login_packet : ℕ
login_packet = 0x8f

abbrev pub play_status_packet : ℕ
play_status_packet = 0x90

abbrev pub disconnect_packet : ℕ
disconnect_packet = 0x91

abbrev pub batch_packet : ℕ
batch_packet = 0x92

abbrev pub text_packet : ℕ
text_packet = 0x93

abbrev pub set_time_packet : ℕ
set_time_packet = 0x94

abbrev pub start_game_packet : ℕ
start_game_packet = 0x95

abbrev pub add_player_packet : ℕ
add_player_packet = 0x96

abbrev pub remove_player_packet : ℕ
remove_player_packet = 0x97

abbrev pub add_entity_packet : ℕ
add_entity_packet = 0x98

abbrev pub remove_entity_packet : ℕ
remove_entity_packet = 0x99

abbrev pub add_item_entity_packet : ℕ
add_item_entity_packet = 0x9a

abbrev pub take_item_entity_packet : ℕ
take_item_entity_packet = 0x9b

abbrev pub move_entity_packet : ℕ
move_entity_packet = 0x9c

abbrev pub move_player_packet : ℕ
move_player_packet = 0x9d

abbrev pub remove_block_packet : ℕ
remove_block_packet = 0x9e

abbrev pub update_block_packet : ℕ
update_block_packet = 0x9f

abbrev pub level_event_packet : ℕ
level_event_packet = 0xa2

abbrev pub block_event_packet : ℕ
block_event_packet = 0xa3

abbrev pub entity_event_packet : ℕ
entity_event_packet = 0xa4

abbrev pub mob_equipment_packet : ℕ
mob_equipment_packet = 0xa7

abbrev pub interact_packet : ℕ
interact_packet = 0xa9

abbrev pub use_item_packet : ℕ
use_item_packet = 0xaa

abbrev pub player_action_packet : ℕ
player_action_packet = 0xab

abbrev pub set_entity_data_packet : ℕ
set_entity_data_packet = 0xad

abbrev pub set_entity_motion_packet : ℕ
set_entity_motion_packet = 0xae

abbrev pub set_entity_link_packet : ℕ
set_entity_link_packet = 0xaf

abbrev pub set_health_packet : ℕ
set_health_packet = 0xb0

abbrev pub set_spawn_position_packet : ℕ
set_spawn_position_packet = 0xb1

abbrev pub animate_packet : ℕ
animate_packet = 0xb2

abbrev pub respawn_packet : ℕ
respawn_packet = 0xb3

abbrev pub drop_item_packet : ℕ
drop_item_packet = 0xb4

abbrev pub container_open_packet : ℕ
container_open_packet = 0xb5

abbrev pub container_close_packet : ℕ
container_close_packet = 0xb6

abbrev pub container_set_slot_packet : ℕ
container_set_slot_packet = 0xb7

abbrev pub container_set_data_packet : ℕ
container_set_data_packet = 0xb8

abbrev pub container_set_content_packet : ℕ
container_set_content_packet = 0xb9

abbrev pub crafting_data_packet : ℕ
crafting_data_packet = 0xba

abbrev pub crafting_event_packet : ℕ
crafting_event_packet = 0xbb

abbrev pub adventure_settings_packet : ℕ
adventure_settings_packet = 0xbc

abbrev pub block_entity_data_packet : ℕ
block_entity_data_packet = 0xbd

abbrev pub player_input_packet : ℕ
player_input_packet = 0xbe

abbrev pub full_chunk_data_packet : ℕ
full_chunk_data_packet = 0xbf

abbrev pub set_difficulty_packet : ℕ
set_difficulty_packet = 0xc0

abbrev pub change_dimension_packet : ℕ
change_dimension_packet = 0xc1

abbrev pub set_player_gametype_packet : ℕ
set_player_gametype_packet = 0xc2

abbrev pub player_list_packet : ℕ
player_list_packet = 0xc3

abbrev pub request_chunk_radius_packet : ℕ
request_chunk_radius_packet = 0xc8

abbrev pub chunk_radius_update_packet : ℕ
chunk_radius_update_packet = 0xc9

abbrev pub text_raw : ℕ
text_raw = 0

abbrev pub text_chat : ℕ
text_chat = 1

abbrev pub text_translation : ℕ
text_translation = 2

abbrev pub text_popup : ℕ
text_popup = 3

abbrev pub text_tip : ℕ
text_tip = 4

abbrev pub text_system : ℕ
text_system = 5

abbrev pub update_flag_neighbors : ℕ
update_flag_neighbors = 1

abbrev pub update_flag_network : ℕ
update_flag_network = 2

abbrev pub event_particle_destroy : ℕ
event_particle_destroy = 2001

abbrev pub window_inventory : ℕ
window_inventory = 0

abbrev pub craft_entry_shapeless : ℕ
craft_entry_shapeless = 0

abbrev pub craft_entry_shaped : ℕ
craft_entry_shaped = 1

abbrev pub data_type_byte : ℕ
data_type_byte = 0

abbrev pub data_type_short : ℕ
data_type_short = 1

abbrev pub data_type_string : ℕ
data_type_string = 4

abbrev pub data_flags : ℕ
data_flags = 0

abbrev pub data_air : ℕ
data_air = 1

abbrev pub data_nametag : ℕ
data_nametag = 2

abbrev pub data_show_nametag : ℕ
data_show_nametag = 3

abbrev pub data_no_ai : ℕ
data_no_ai = 15

abbrev pub data_color_info : ℕ
data_color_info = 16

abbrev pub update_flag_all : ℕ
update_flag_all = bit_or update_flag_neighbors update_flag_network
