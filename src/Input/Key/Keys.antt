-- ===== src/Input/Key/Keys.antt =====
-- rkvm-input/src/key/keyboard.rs: the enum `Keyboard`, one constructor for each variant.
pub data Keyboard : Type 0 where
  a ab address_book again als_toggle alt_erase angle apostrophe appselect archive aspect_ratio
        assistant attendant_off attendant_on attendant_toggle audio audio_desc aux b back backslash
        backspace bass_boost battery blue bluetooth bookmarks break brightness_auto brightness_cycle
        brightness_max brightness_min brightness_toggle brightness_down brightness_up brl_dot1
        brl_dot10 brl_dot2 brl_dot3 brl_dot4 brl_dot5 brl_dot6 brl_dot7 brl_dot8 brl_dot9
        button_config c calc calendar camera camera_down camera_focus camera_left camera_right
        camera_up camera_zoom_in camera_zoom_out cancel caps_lock cd channel channel_down channel_up
        chat clear close close_cd coffee comma compose computer config connect context_menu
        controlpanel copy cut cycle_windows d dashboard data_key database del_eol del_eos del_line
        delete delete_file digits directory display_off display_toggle documents dollar dot down dvd
        e edit editor eject_cd eject_close_cd email end enter epg equal esc euro exit f f1 f10 f11
        f12 f13 f14 f15 f16 f17 f18 f19 f2 f20 f21 f22 f23 f24 f3 f4 f5 f6 f7 f8 f9 fast_forward
        fast_reverse favorites file finance find first fn fn1 fn2 fn_b fn_d fn_e fn_esc fn_f fn_f1
        fn_f10 fn_f11 fn_f12 fn_f2 fn_f3 fn_f4 fn_f5 fn_f6 fn_f7 fn_f8 fn_f9 fn_s forward
        forward_mail frameback frame_forward front full_screen g games goto graphics_editor grave
        green h hangeul hanja help henkan hiragana home homepage hp i images info ins_line insert
        iso j journal k katakana katakana_hiragana kbd_layout_next kbd_lcd_menu1 kbd_lcd_menu2
        kbd_lcd_menu3 kbd_lcd_menu4 kbd_lcd_menu5 kbd_illum_down kbd_illum_toggle kbd_illum_up
        kbd_input_assist_accept kbd_input_assist_cancel kbd_input_assist_next
        kbd_input_assist_nextgroup kbd_input_assist_prev kbd_input_assist_prevgroup keyboard kp0 kp1
        kp2 kp3 kp4 kp5 kp6 kp7 kp8 kp9 kp_asterisk kp_comma kp_dot kp_enter kp_equal kp_jp_comma
        kp_left_paren kp_minus kp_plus kp_plus_minus kp_right_paren kp_slash l language last left
        left_down left_up left_alt left_brace left_ctrl left_meta left_shift lights_toggle line_feed
        list log_off m macro macro1 macro10 macro11 macro12 macro13 macro14 macro15 macro16 macro17
        macro18 macro19 macro2 macro20 macro21 macro22 macro23 macro24 macro25 macro26 macro27
        macro28 macro29 macro3 macro30 macro4 macro5 macro6 macro7 macro8 macro9 macro_preset1
        macro_preset2 macro_preset3 macro_preset_cycle macro_record_start macro_record_stop mail
        media media_repeat media_top_menu memo menu messenger mhp mic_mute minus mode move mp3
        ms_dos muhenkan mute n n0 n1 n102nd n10_channels_down n10_channels_up n2 n3 n3d_mode n4 n5
        n6 n7 n8 n9 new news next next_favorite next_song numeric0 numeric1 numeric11 numeric12
        numeric2 numeric3 numeric4 numeric5 numeric6 numeric7 numeric8 numeric9 numeric_a numeric_b
        numeric_c numeric_d numeric_pound numeric_star num_lock o ok onscreen_keyboard open_key
        option p page_down page_up paste pause pause_record pause_cd pc phone play play_cd player
        play_pause power power2 presentation previous previous_song print privacy_screen_toggle
        prog1 prog2 prog3 prog4 program props pvr q question r radio record_key red redo refresh
        reply reserved restart rewind rf_kill right right_down right_up right_alt right_brace
        right_ctrl right_meta right_shift ro root_menu rotate_display rotate_lock_toggle s sat sat2
        save scale screensaver scroll_down scroll_lock scroll_up search_key select
        selective_screenshot semicolon send send_file setup shop shuffle slash sleep slow
        slow_reverse sound space spellcheck sport spreadsheet stop stop_record stop_cd subtitle
        suspend switch_video_mode sys_rq t tab tape task_manager teen text time title touchpad_off
        touchpad_on touchpad_toggle tuner tv tv2 twen u undo unknown unmute up uwb v vcr vcr2 vendor
        video video_next video_prev video_phone vod voice_command voice_mail volume_down volume_up w
        wake_up wlan word_processor wps_button wwan www x xfer y yellow yen z zenkaku_hankaku
        zoom_in zoom_out zoom_reset :
      Keyboard

unfoldable pub Keyboard-discrete : Discrete Keyboard
Keyboard-discrete = hlevel
