-- ===== src/Input/Codes.antt =====
-- The constants of `glue` that rkvm-input/src/key/keyboard.rs, key/button.rs, rel.rs and abs.rs name:
-- a type for each prefix, a constructor for each constant. The numbers are those of the kernel's
-- headers: a parameter.

-- `KEY_`
pub data KeyCode : Type 0 where
  key_a key_ab key_addressbook key_again key_als_toggle key_alterase key_angle key_apostrophe
        key_appselect key_archive key_aspect_ratio key_assistant key_attendant_off key_attendant_on
        key_attendant_toggle key_audio key_audio_desc key_aux key_b key_back key_backslash
        key_backspace key_bassboost key_battery key_blue key_bluetooth key_bookmarks key_break
        key_brightness_auto key_brightness_cycle key_brightness_max key_brightness_min
        key_brightness_toggle key_brightnessdown key_brightnessup key_brl_dot1 key_brl_dot10
        key_brl_dot2 key_brl_dot3 key_brl_dot4 key_brl_dot5 key_brl_dot6 key_brl_dot7 key_brl_dot8
        key_brl_dot9 key_buttonconfig key_c key_calc key_calendar key_camera key_camera_down
        key_camera_focus key_camera_left key_camera_right key_camera_up key_camera_zoomin
        key_camera_zoomout key_cancel key_capslock key_cd key_channel key_channeldown key_channelup
        key_chat key_clear key_close key_closecd key_coffee key_comma key_compose key_computer
        key_config key_connect key_context_menu key_controlpanel key_copy key_cut key_cyclewindows
        key_d key_dashboard key_data key_database key_del_eol key_del_eos key_del_line key_delete
        key_deletefile key_digits key_directory key_display_off key_displaytoggle key_documents
        key_dollar key_dot key_down key_dvd key_e key_edit key_editor key_ejectcd key_ejectclosecd
        key_email key_end key_enter key_epg key_equal key_esc key_euro key_exit key_f key_f1 key_f10
        key_f11 key_f12 key_f13 key_f14 key_f15 key_f16 key_f17 key_f18 key_f19 key_f2 key_f20
        key_f21 key_f22 key_f23 key_f24 key_f3 key_f4 key_f5 key_f6 key_f7 key_f8 key_f9
        key_fastforward key_fastreverse key_favorites key_file key_finance key_find key_first key_fn
        key_fn_1 key_fn_2 key_fn_b key_fn_d key_fn_e key_fn_esc key_fn_f key_fn_f1 key_fn_f10
        key_fn_f11 key_fn_f12 key_fn_f2 key_fn_f3 key_fn_f4 key_fn_f5 key_fn_f6 key_fn_f7 key_fn_f8
        key_fn_f9 key_fn_s key_forward key_forwardmail key_frameback key_frameforward key_front
        key_full_screen key_g key_games key_goto key_graphicseditor key_grave key_green key_h
        key_hangeul key_hanja key_help key_henkan key_hiragana key_home key_homepage key_hp key_i
        key_images key_info key_ins_line key_insert key_iso key_j key_journal key_k key_katakana
        key_katakanahiragana key_kbd_layout_next key_kbd_lcd_menu1 key_kbd_lcd_menu2
        key_kbd_lcd_menu3 key_kbd_lcd_menu4 key_kbd_lcd_menu5 key_kbdillumdown key_kbdillumtoggle
        key_kbdillumup key_kbdinputassist_accept key_kbdinputassist_cancel key_kbdinputassist_next
        key_kbdinputassist_nextgroup key_kbdinputassist_prev key_kbdinputassist_prevgroup
        key_keyboard key_kp0 key_kp1 key_kp2 key_kp3 key_kp4 key_kp5 key_kp6 key_kp7 key_kp8 key_kp9
        key_kpasterisk key_kpcomma key_kpdot key_kpenter key_kpequal key_kpjpcomma key_kpleftparen
        key_kpminus key_kpplus key_kpplusminus key_kprightparen key_kpslash key_l key_language
        key_last key_left key_left_down key_left_up key_leftalt key_leftbrace key_leftctrl
        key_leftmeta key_leftshift key_lights_toggle key_linefeed key_list key_logoff key_m
        key_macro key_macro1 key_macro10 key_macro11 key_macro12 key_macro13 key_macro14 key_macro15
        key_macro16 key_macro17 key_macro18 key_macro19 key_macro2 key_macro20 key_macro21
        key_macro22 key_macro23 key_macro24 key_macro25 key_macro26 key_macro27 key_macro28
        key_macro29 key_macro3 key_macro30 key_macro4 key_macro5 key_macro6 key_macro7 key_macro8
        key_macro9 key_macro_preset1 key_macro_preset2 key_macro_preset3 key_macro_preset_cycle
        key_macro_record_start key_macro_record_stop key_mail key_media key_media_repeat
        key_media_top_menu key_memo key_menu key_messenger key_mhp key_micmute key_minus key_mode
        key_move key_mp3 key_msdos key_muhenkan key_mute key_n key_0 key_1 key_102nd
        key_10channelsdown key_10channelsup key_2 key_3 key_3d_mode key_4 key_5 key_6 key_7 key_8
        key_9 key_new key_news key_next key_next_favorite key_nextsong key_numeric_0 key_numeric_1
        key_numeric_11 key_numeric_12 key_numeric_2 key_numeric_3 key_numeric_4 key_numeric_5
        key_numeric_6 key_numeric_7 key_numeric_8 key_numeric_9 key_numeric_a key_numeric_b
        key_numeric_c key_numeric_d key_numeric_pound key_numeric_star key_numlock key_o key_ok
        key_onscreen_keyboard key_open key_option key_p key_pagedown key_pageup key_paste key_pause
        key_pause_record key_pausecd key_pc key_phone key_play key_playcd key_player key_playpause
        key_power key_power2 key_presentation key_previous key_previoussong key_print
        key_privacy_screen_toggle key_prog1 key_prog2 key_prog3 key_prog4 key_program key_props
        key_pvr key_q key_question key_r key_radio key_record key_red key_redo key_refresh key_reply
        key_reserved key_restart key_rewind key_rfkill key_right key_right_down key_right_up
        key_rightalt key_rightbrace key_rightctrl key_rightmeta key_rightshift key_ro key_root_menu
        key_rotate_display key_rotate_lock_toggle key_s key_sat key_sat2 key_save key_scale
        key_screensaver key_scrolldown key_scrolllock key_scrollup key_search key_select
        key_selective_screenshot key_semicolon key_send key_sendfile key_setup key_shop key_shuffle
        key_slash key_sleep key_slow key_slowreverse key_sound key_space key_spellcheck key_sport
        key_spreadsheet key_stop key_stop_record key_stopcd key_subtitle key_suspend
        key_switchvideomode key_sysrq key_t key_tab key_tape key_taskmanager key_teen key_text
        key_time key_title key_touchpad_off key_touchpad_on key_touchpad_toggle key_tuner key_tv
        key_tv2 key_twen key_u key_undo key_unknown key_unmute key_up key_uwb key_v key_vcr key_vcr2
        key_vendor key_video key_video_next key_video_prev key_videophone key_vod key_voicecommand
        key_voicemail key_volumedown key_volumeup key_w key_wakeup key_wlan key_wordprocessor
        key_wps_button key_wwan key_www key_x key_xfer key_y key_yellow key_yen key_z
        key_zenkakuhankaku key_zoomin key_zoomout key_zoomreset :
      KeyCode

unfoldable pub KeyCode-discrete : Discrete KeyCode
KeyCode-discrete = hlevel

-- `BTN_`
pub data BtnCode : Type 0 where
  btn_0 btn_1 btn_2 btn_3 btn_4 btn_5 btn_6 btn_7 btn_8 btn_9 btn_left btn_right btn_middle btn_side
        btn_extra btn_forward btn_back btn_task btn_trigger btn_thumb btn_thumb2 btn_top btn_top2
        btn_pinkie btn_base btn_base2 btn_base3 btn_base4 btn_base5 btn_base6 btn_dead btn_south
        btn_east btn_c btn_north btn_west btn_z btn_tl btn_tr btn_tl2 btn_tr2 btn_select btn_start
        btn_mode btn_thumbl btn_thumbr btn_tool_pen btn_tool_rubber btn_tool_brush btn_tool_pencil
        btn_tool_airbrush btn_tool_finger btn_tool_mouse btn_tool_lens btn_tool_quinttap btn_stylus3
        btn_touch btn_stylus btn_stylus2 btn_tool_doubletap btn_tool_tripletap btn_tool_quadtap
        btn_gear_down btn_gear_up btn_dpad_up btn_dpad_down btn_dpad_left btn_dpad_right
        btn_trigger_happy1 btn_trigger_happy2 btn_trigger_happy3 btn_trigger_happy4
        btn_trigger_happy5 btn_trigger_happy6 btn_trigger_happy7 btn_trigger_happy8
        btn_trigger_happy9 btn_trigger_happy10 btn_trigger_happy11 btn_trigger_happy12
        btn_trigger_happy13 btn_trigger_happy14 btn_trigger_happy15 btn_trigger_happy16
        btn_trigger_happy17 btn_trigger_happy18 btn_trigger_happy19 btn_trigger_happy20
        btn_trigger_happy21 btn_trigger_happy22 btn_trigger_happy23 btn_trigger_happy24
        btn_trigger_happy25 btn_trigger_happy26 btn_trigger_happy27 btn_trigger_happy28
        btn_trigger_happy29 btn_trigger_happy30 btn_trigger_happy31 btn_trigger_happy32
        btn_trigger_happy33 btn_trigger_happy34 btn_trigger_happy35 btn_trigger_happy36
        btn_trigger_happy37 btn_trigger_happy38 btn_trigger_happy39 btn_trigger_happy40 :
      BtnCode

unfoldable pub BtnCode-discrete : Discrete BtnCode
BtnCode-discrete = hlevel

-- `REL_`
pub data RelCode : Type 0 where
  rel_x rel_y rel_z rel_rx rel_ry rel_rz rel_hwheel rel_dial rel_wheel rel_misc rel_wheel_hi_res
        rel_hwheel_hi_res :
      RelCode

unfoldable pub RelCode-discrete : Discrete RelCode
RelCode-discrete = hlevel

-- `ABS_`
pub data AbsCode : Type 0 where
  abs_x abs_y abs_z abs_rx abs_ry abs_rz abs_throttle abs_rudder abs_wheel abs_gas abs_brake
        abs_hat0x abs_hat0y abs_hat1x abs_hat1y abs_hat2x abs_hat2y abs_hat3x abs_hat3y abs_pressure
        abs_distance abs_tilt_x abs_tilt_y abs_tool_width abs_volume abs_profile abs_misc
        abs_mt_slot abs_mt_touch_major abs_mt_touch_minor abs_mt_width_major abs_mt_width_minor
        abs_mt_orientation abs_mt_position_x abs_mt_position_y abs_mt_blob_id abs_mt_tracking_id
        abs_mt_pressure abs_mt_distance abs_mt_tool_x abs_mt_tool_y :
      AbsCode

unfoldable pub AbsCode-discrete : Discrete AbsCode
AbsCode-discrete = hlevel

-- `MT_TOOL_`
pub data MtToolCode : Type 0 where
  mt_tool_finger mt_tool_pen mt_tool_palm mt_tool_dial : MtToolCode

unfoldable pub MtToolCode-discrete : Discrete MtToolCode
MtToolCode-discrete = hlevel
