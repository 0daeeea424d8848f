-- ===== src/Input/Key/FromRaw.antt =====
-- rkvm-input/src/key/keyboard.rs and key/button.rs: the arms of `from_raw`, in their order. An arm is
-- the constant of its pattern with the variant that it returns.
use rkvm.Prelude.{List, [], ◌∷◌}
use rkvm.Input.Codes.{KeyCode, BtnCode}
use rkvm.Input.Key.Keys.{Keyboard}
use rkvm.Input.Key.Buttons.{Button}

abbrev pub keyboard_arms : List (KeyCode × Keyboard)
keyboard_arms =
    (KeyCode.key_a, Keyboard.a)
    ∷ (KeyCode.key_ab, Keyboard.ab)
    ∷ (KeyCode.key_addressbook, Keyboard.address_book)
    ∷ (KeyCode.key_again, Keyboard.again)
    ∷ (KeyCode.key_als_toggle, Keyboard.als_toggle)
    ∷ (KeyCode.key_alterase, Keyboard.alt_erase)
    ∷ (KeyCode.key_angle, Keyboard.angle)
    ∷ (KeyCode.key_apostrophe, Keyboard.apostrophe)
    ∷ (KeyCode.key_appselect, Keyboard.appselect)
    ∷ (KeyCode.key_archive, Keyboard.archive)
    ∷ (KeyCode.key_aspect_ratio, Keyboard.aspect_ratio)
    ∷ (KeyCode.key_assistant, Keyboard.assistant)
    ∷ (KeyCode.key_attendant_off, Keyboard.attendant_off)
    ∷ (KeyCode.key_attendant_on, Keyboard.attendant_on)
    ∷ (KeyCode.key_attendant_toggle, Keyboard.attendant_toggle)
    ∷ (KeyCode.key_audio, Keyboard.audio)
    ∷ (KeyCode.key_audio_desc, Keyboard.audio_desc)
    ∷ (KeyCode.key_aux, Keyboard.aux)
    ∷ (KeyCode.key_b, Keyboard.b)
    ∷ (KeyCode.key_back, Keyboard.back)
    ∷ (KeyCode.key_backslash, Keyboard.backslash)
    ∷ (KeyCode.key_backspace, Keyboard.backspace)
    ∷ (KeyCode.key_bassboost, Keyboard.bass_boost)
    ∷ (KeyCode.key_battery, Keyboard.battery)
    ∷ (KeyCode.key_blue, Keyboard.blue)
    ∷ (KeyCode.key_bluetooth, Keyboard.bluetooth)
    ∷ (KeyCode.key_bookmarks, Keyboard.bookmarks)
    ∷ (KeyCode.key_break, Keyboard.break)
    ∷ (KeyCode.key_brightness_auto, Keyboard.brightness_auto)
    ∷ (KeyCode.key_brightness_cycle, Keyboard.brightness_cycle)
    ∷ (KeyCode.key_brightness_max, Keyboard.brightness_max)
    ∷ (KeyCode.key_brightness_min, Keyboard.brightness_min)
    ∷ (KeyCode.key_brightness_toggle, Keyboard.brightness_toggle)
    ∷ (KeyCode.key_brightnessdown, Keyboard.brightness_down)
    ∷ (KeyCode.key_brightnessup, Keyboard.brightness_up)
    ∷ (KeyCode.key_brl_dot1, Keyboard.brl_dot1)
    ∷ (KeyCode.key_brl_dot10, Keyboard.brl_dot10)
    ∷ (KeyCode.key_brl_dot2, Keyboard.brl_dot2)
    ∷ (KeyCode.key_brl_dot3, Keyboard.brl_dot3)
    ∷ (KeyCode.key_brl_dot4, Keyboard.brl_dot4)
    ∷ (KeyCode.key_brl_dot5, Keyboard.brl_dot5)
    ∷ (KeyCode.key_brl_dot6, Keyboard.brl_dot6)
    ∷ (KeyCode.key_brl_dot7, Keyboard.brl_dot7)
    ∷ (KeyCode.key_brl_dot8, Keyboard.brl_dot8)
    ∷ (KeyCode.key_brl_dot9, Keyboard.brl_dot9)
    ∷ (KeyCode.key_buttonconfig, Keyboard.button_config)
    ∷ (KeyCode.key_c, Keyboard.c)
    ∷ (KeyCode.key_calc, Keyboard.calc)
    ∷ (KeyCode.key_calendar, Keyboard.calendar)
    ∷ (KeyCode.key_camera, Keyboard.camera)
    ∷ (KeyCode.key_camera_down, Keyboard.camera_down)
    ∷ (KeyCode.key_camera_focus, Keyboard.camera_focus)
    ∷ (KeyCode.key_camera_left, Keyboard.camera_left)
    ∷ (KeyCode.key_camera_right, Keyboard.camera_right)
    ∷ (KeyCode.key_camera_up, Keyboard.camera_up)
    ∷ (KeyCode.key_camera_zoomin, Keyboard.camera_zoom_in)
    ∷ (KeyCode.key_camera_zoomout, Keyboard.camera_zoom_out)
    ∷ (KeyCode.key_cancel, Keyboard.cancel)
    ∷ (KeyCode.key_capslock, Keyboard.caps_lock)
    ∷ (KeyCode.key_cd, Keyboard.cd)
    ∷ (KeyCode.key_channel, Keyboard.channel)
    ∷ (KeyCode.key_channeldown, Keyboard.channel_down)
    ∷ (KeyCode.key_channelup, Keyboard.channel_up)
    ∷ (KeyCode.key_chat, Keyboard.chat)
    ∷ (KeyCode.key_clear, Keyboard.clear)
    ∷ (KeyCode.key_close, Keyboard.close)
    ∷ (KeyCode.key_closecd, Keyboard.close_cd)
    ∷ (KeyCode.key_coffee, Keyboard.coffee)
    ∷ (KeyCode.key_comma, Keyboard.comma)
    ∷ (KeyCode.key_compose, Keyboard.compose)
    ∷ (KeyCode.key_computer, Keyboard.computer)
    ∷ (KeyCode.key_config, Keyboard.config)
    ∷ (KeyCode.key_connect, Keyboard.connect)
    ∷ (KeyCode.key_context_menu, Keyboard.context_menu)
    ∷ (KeyCode.key_controlpanel, Keyboard.controlpanel)
    ∷ (KeyCode.key_copy, Keyboard.copy)
    ∷ (KeyCode.key_cut, Keyboard.cut)
    ∷ (KeyCode.key_cyclewindows, Keyboard.cycle_windows)
    ∷ (KeyCode.key_d, Keyboard.d)
    ∷ (KeyCode.key_dashboard, Keyboard.dashboard)
    ∷ (KeyCode.key_data, Keyboard.data_key)
    ∷ (KeyCode.key_database, Keyboard.database)
    ∷ (KeyCode.key_del_eol, Keyboard.del_eol)
    ∷ (KeyCode.key_del_eos, Keyboard.del_eos)
    ∷ (KeyCode.key_del_line, Keyboard.del_line)
    ∷ (KeyCode.key_delete, Keyboard.delete)
    ∷ (KeyCode.key_deletefile, Keyboard.delete_file)
    ∷ (KeyCode.key_digits, Keyboard.digits)
    ∷ (KeyCode.key_directory, Keyboard.directory)
    ∷ (KeyCode.key_display_off, Keyboard.display_off)
    ∷ (KeyCode.key_documents, Keyboard.documents)
    ∷ (KeyCode.key_dollar, Keyboard.dollar)
    ∷ (KeyCode.key_dot, Keyboard.dot)
    ∷ (KeyCode.key_down, Keyboard.down)
    ∷ (KeyCode.key_dvd, Keyboard.dvd)
    ∷ (KeyCode.key_e, Keyboard.e)
    ∷ (KeyCode.key_edit, Keyboard.edit)
    ∷ (KeyCode.key_editor, Keyboard.editor)
    ∷ (KeyCode.key_ejectcd, Keyboard.eject_cd)
    ∷ (KeyCode.key_ejectclosecd, Keyboard.eject_close_cd)
    ∷ (KeyCode.key_email, Keyboard.email)
    ∷ (KeyCode.key_end, Keyboard.end)
    ∷ (KeyCode.key_enter, Keyboard.enter)
    ∷ (KeyCode.key_epg, Keyboard.epg)
    ∷ (KeyCode.key_equal, Keyboard.equal)
    ∷ (KeyCode.key_esc, Keyboard.esc)
    ∷ (KeyCode.key_euro, Keyboard.euro)
    ∷ (KeyCode.key_exit, Keyboard.exit)
    ∷ (KeyCode.key_f, Keyboard.f)
    ∷ (KeyCode.key_f1, Keyboard.f1)
    ∷ (KeyCode.key_f10, Keyboard.f10)
    ∷ (KeyCode.key_f11, Keyboard.f11)
    ∷ (KeyCode.key_f12, Keyboard.f12)
    ∷ (KeyCode.key_f13, Keyboard.f13)
    ∷ (KeyCode.key_f14, Keyboard.f14)
    ∷ (KeyCode.key_f15, Keyboard.f15)
    ∷ (KeyCode.key_f16, Keyboard.f16)
    ∷ (KeyCode.key_f17, Keyboard.f17)
    ∷ (KeyCode.key_f18, Keyboard.f18)
    ∷ (KeyCode.key_f19, Keyboard.f19)
    ∷ (KeyCode.key_f2, Keyboard.f2)
    ∷ (KeyCode.key_f20, Keyboard.f20)
    ∷ (KeyCode.key_f21, Keyboard.f21)
    ∷ (KeyCode.key_f22, Keyboard.f22)
    ∷ (KeyCode.key_f23, Keyboard.f23)
    ∷ (KeyCode.key_f24, Keyboard.f24)
    ∷ (KeyCode.key_f3, Keyboard.f3)
    ∷ (KeyCode.key_f4, Keyboard.f4)
    ∷ (KeyCode.key_f5, Keyboard.f5)
    ∷ (KeyCode.key_f6, Keyboard.f6)
    ∷ (KeyCode.key_f7, Keyboard.f7)
    ∷ (KeyCode.key_f8, Keyboard.f8)
    ∷ (KeyCode.key_f9, Keyboard.f9)
    ∷ (KeyCode.key_fastforward, Keyboard.fast_forward)
    ∷ (KeyCode.key_fastreverse, Keyboard.fast_reverse)
    ∷ (KeyCode.key_favorites, Keyboard.favorites)
    ∷ (KeyCode.key_file, Keyboard.file)
    ∷ (KeyCode.key_finance, Keyboard.finance)
    ∷ (KeyCode.key_find, Keyboard.find)
    ∷ (KeyCode.key_first, Keyboard.first)
    ∷ (KeyCode.key_fn, Keyboard.fn)
    ∷ (KeyCode.key_fn_1, Keyboard.fn1)
    ∷ (KeyCode.key_fn_2, Keyboard.fn2)
    ∷ (KeyCode.key_fn_b, Keyboard.fn_b)
    ∷ (KeyCode.key_fn_d, Keyboard.fn_d)
    ∷ (KeyCode.key_fn_e, Keyboard.fn_e)
    ∷ (KeyCode.key_fn_esc, Keyboard.fn_esc)
    ∷ (KeyCode.key_fn_f, Keyboard.fn_f)
    ∷ (KeyCode.key_fn_f1, Keyboard.fn_f1)
    ∷ (KeyCode.key_fn_f10, Keyboard.fn_f10)
    ∷ (KeyCode.key_fn_f11, Keyboard.fn_f11)
    ∷ (KeyCode.key_fn_f12, Keyboard.fn_f12)
    ∷ (KeyCode.key_fn_f2, Keyboard.fn_f2)
    ∷ (KeyCode.key_fn_f3, Keyboard.fn_f3)
    ∷ (KeyCode.key_fn_f4, Keyboard.fn_f4)
    ∷ (KeyCode.key_fn_f5, Keyboard.fn_f5)
    ∷ (KeyCode.key_fn_f6, Keyboard.fn_f6)
    ∷ (KeyCode.key_fn_f7, Keyboard.fn_f7)
    ∷ (KeyCode.key_fn_f8, Keyboard.fn_f8)
    ∷ (KeyCode.key_fn_f9, Keyboard.fn_f9)
    ∷ (KeyCode.key_fn_s, Keyboard.fn_s)
    ∷ (KeyCode.key_forward, Keyboard.forward)
    ∷ (KeyCode.key_forwardmail, Keyboard.forward_mail)
    ∷ (KeyCode.key_frameback, Keyboard.frameback)
    ∷ (KeyCode.key_frameforward, Keyboard.frame_forward)
    ∷ (KeyCode.key_front, Keyboard.front)
    ∷ (KeyCode.key_full_screen, Keyboard.full_screen)
    ∷ (KeyCode.key_g, Keyboard.g)
    ∷ (KeyCode.key_games, Keyboard.games)
    ∷ (KeyCode.key_goto, Keyboard.goto)
    ∷ (KeyCode.key_graphicseditor, Keyboard.graphics_editor)
    ∷ (KeyCode.key_grave, Keyboard.grave)
    ∷ (KeyCode.key_green, Keyboard.green)
    ∷ (KeyCode.key_h, Keyboard.h)
    ∷ (KeyCode.key_hangeul, Keyboard.hangeul)
    ∷ (KeyCode.key_hanja, Keyboard.hanja)
    ∷ (KeyCode.key_help, Keyboard.help)
    ∷ (KeyCode.key_henkan, Keyboard.henkan)
    ∷ (KeyCode.key_hiragana, Keyboard.hiragana)
    ∷ (KeyCode.key_home, Keyboard.home)
    ∷ (KeyCode.key_homepage, Keyboard.homepage)
    ∷ (KeyCode.key_hp, Keyboard.hp)
    ∷ (KeyCode.key_i, Keyboard.i)
    ∷ (KeyCode.key_images, Keyboard.images)
    ∷ (KeyCode.key_info, Keyboard.info)
    ∷ (KeyCode.key_ins_line, Keyboard.ins_line)
    ∷ (KeyCode.key_insert, Keyboard.insert)
    ∷ (KeyCode.key_iso, Keyboard.iso)
    ∷ (KeyCode.key_j, Keyboard.j)
    ∷ (KeyCode.key_journal, Keyboard.journal)
    ∷ (KeyCode.key_k, Keyboard.k)
    ∷ (KeyCode.key_katakana, Keyboard.katakana)
    ∷ (KeyCode.key_katakanahiragana, Keyboard.katakana_hiragana)
    ∷ (KeyCode.key_kbd_layout_next, Keyboard.kbd_layout_next)
    ∷ (KeyCode.key_kbd_lcd_menu1, Keyboard.kbd_lcd_menu1)
    ∷ (KeyCode.key_kbd_lcd_menu2, Keyboard.kbd_lcd_menu2)
    ∷ (KeyCode.key_kbd_lcd_menu3, Keyboard.kbd_lcd_menu3)
    ∷ (KeyCode.key_kbd_lcd_menu4, Keyboard.kbd_lcd_menu4)
    ∷ (KeyCode.key_kbd_lcd_menu5, Keyboard.kbd_lcd_menu5)
    ∷ (KeyCode.key_kbdillumdown, Keyboard.kbd_illum_down)
    ∷ (KeyCode.key_kbdillumtoggle, Keyboard.kbd_illum_toggle)
    ∷ (KeyCode.key_kbdillumup, Keyboard.kbd_illum_up)
    ∷ (KeyCode.key_kbdinputassist_accept, Keyboard.kbd_input_assist_accept)
    ∷ (KeyCode.key_kbdinputassist_cancel, Keyboard.kbd_input_assist_cancel)
    ∷ (KeyCode.key_kbdinputassist_next, Keyboard.kbd_input_assist_next)
    ∷ (KeyCode.key_kbdinputassist_nextgroup, Keyboard.kbd_input_assist_nextgroup)
    ∷ (KeyCode.key_kbdinputassist_prev, Keyboard.kbd_input_assist_prev)
    ∷ (KeyCode.key_kbdinputassist_prevgroup, Keyboard.kbd_input_assist_prevgroup)
    ∷ (KeyCode.key_keyboard, Keyboard.keyboard)
    ∷ (KeyCode.key_kp0, Keyboard.kp0)
    ∷ (KeyCode.key_kp1, Keyboard.kp1)
    ∷ (KeyCode.key_kp2, Keyboard.kp2)
    ∷ (KeyCode.key_kp3, Keyboard.kp3)
    ∷ (KeyCode.key_kp4, Keyboard.kp4)
    ∷ (KeyCode.key_kp5, Keyboard.kp5)
    ∷ (KeyCode.key_kp6, Keyboard.kp6)
    ∷ (KeyCode.key_kp7, Keyboard.kp7)
    ∷ (KeyCode.key_kp8, Keyboard.kp8)
    ∷ (KeyCode.key_kp9, Keyboard.kp9)
    ∷ (KeyCode.key_kpasterisk, Keyboard.kp_asterisk)
    ∷ (KeyCode.key_kpcomma, Keyboard.kp_comma)
    ∷ (KeyCode.key_kpdot, Keyboard.kp_dot)
    ∷ (KeyCode.key_kpenter, Keyboard.kp_enter)
    ∷ (KeyCode.key_kpequal, Keyboard.kp_equal)
    ∷ (KeyCode.key_kpjpcomma, Keyboard.kp_jp_comma)
    ∷ (KeyCode.key_kpleftparen, Keyboard.kp_left_paren)
    ∷ (KeyCode.key_kpminus, Keyboard.kp_minus)
    ∷ (KeyCode.key_kpplus, Keyboard.kp_plus)
    ∷ (KeyCode.key_kpplusminus, Keyboard.kp_plus_minus)
    ∷ (KeyCode.key_kprightparen, Keyboard.kp_right_paren)
    ∷ (KeyCode.key_kpslash, Keyboard.kp_slash)
    ∷ (KeyCode.key_l, Keyboard.l)
    ∷ (KeyCode.key_language, Keyboard.language)
    ∷ (KeyCode.key_last, Keyboard.last)
    ∷ (KeyCode.key_left, Keyboard.left)
    ∷ (KeyCode.key_left_down, Keyboard.left_down)
    ∷ (KeyCode.key_left_up, Keyboard.left_up)
    ∷ (KeyCode.key_leftalt, Keyboard.left_alt)
    ∷ (KeyCode.key_leftbrace, Keyboard.left_brace)
    ∷ (KeyCode.key_leftctrl, Keyboard.left_ctrl)
    ∷ (KeyCode.key_leftmeta, Keyboard.left_meta)
    ∷ (KeyCode.key_leftshift, Keyboard.left_shift)
    ∷ (KeyCode.key_lights_toggle, Keyboard.lights_toggle)
    ∷ (KeyCode.key_linefeed, Keyboard.line_feed)
    ∷ (KeyCode.key_list, Keyboard.list)
    ∷ (KeyCode.key_logoff, Keyboard.log_off)
    ∷ (KeyCode.key_m, Keyboard.m)
    ∷ (KeyCode.key_macro, Keyboard.macro)
    ∷ (KeyCode.key_macro1, Keyboard.macro1)
    ∷ (KeyCode.key_macro10, Keyboard.macro10)
    ∷ (KeyCode.key_macro11, Keyboard.macro11)
    ∷ (KeyCode.key_macro12, Keyboard.macro12)
    ∷ (KeyCode.key_macro13, Keyboard.macro13)
    ∷ (KeyCode.key_macro14, Keyboard.macro14)
    ∷ (KeyCode.key_macro15, Keyboard.macro15)
    ∷ (KeyCode.key_macro16, Keyboard.macro16)
    ∷ (KeyCode.key_macro17, Keyboard.macro17)
    ∷ (KeyCode.key_macro18, Keyboard.macro18)
    ∷ (KeyCode.key_macro19, Keyboard.macro19)
    ∷ (KeyCode.key_macro2, Keyboard.macro2)
    ∷ (KeyCode.key_macro20, Keyboard.macro20)
    ∷ (KeyCode.key_macro21, Keyboard.macro21)
    ∷ (KeyCode.key_macro22, Keyboard.macro22)
    ∷ (KeyCode.key_macro23, Keyboard.macro23)
    ∷ (KeyCode.key_macro24, Keyboard.macro24)
    ∷ (KeyCode.key_macro25, Keyboard.macro25)
    ∷ (KeyCode.key_macro26, Keyboard.macro26)
    ∷ (KeyCode.key_macro27, Keyboard.macro27)
    ∷ (KeyCode.key_macro28, Keyboard.macro28)
    ∷ (KeyCode.key_macro29, Keyboard.macro29)
    ∷ (KeyCode.key_macro3, Keyboard.macro3)
    ∷ (KeyCode.key_macro30, Keyboard.macro30)
    ∷ (KeyCode.key_macro4, Keyboard.macro4)
    ∷ (KeyCode.key_macro5, Keyboard.macro5)
    ∷ (KeyCode.key_macro6, Keyboard.macro6)
    ∷ (KeyCode.key_macro7, Keyboard.macro7)
    ∷ (KeyCode.key_macro8, Keyboard.macro8)
    ∷ (KeyCode.key_macro9, Keyboard.macro9)
    ∷ (KeyCode.key_macro_preset1, Keyboard.macro_preset1)
    ∷ (KeyCode.key_macro_preset2, Keyboard.macro_preset2)
    ∷ (KeyCode.key_macro_preset3, Keyboard.macro_preset3)
    ∷ (KeyCode.key_macro_preset_cycle, Keyboard.macro_preset_cycle)
    ∷ (KeyCode.key_macro_record_start, Keyboard.macro_record_start)
    ∷ (KeyCode.key_macro_record_stop, Keyboard.macro_record_stop)
    ∷ (KeyCode.key_mail, Keyboard.mail)
    ∷ (KeyCode.key_media, Keyboard.media)
    ∷ (KeyCode.key_media_repeat, Keyboard.media_repeat)
    ∷ (KeyCode.key_media_top_menu, Keyboard.media_top_menu)
    ∷ (KeyCode.key_memo, Keyboard.memo)
    ∷ (KeyCode.key_menu, Keyboard.menu)
    ∷ (KeyCode.key_messenger, Keyboard.messenger)
    ∷ (KeyCode.key_mhp, Keyboard.mhp)
    ∷ (KeyCode.key_micmute, Keyboard.mic_mute)
    ∷ (KeyCode.key_minus, Keyboard.minus)
    ∷ (KeyCode.key_mode, Keyboard.mode)
    ∷ (KeyCode.key_move, Keyboard.move)
    ∷ (KeyCode.key_mp3, Keyboard.mp3)
    ∷ (KeyCode.key_msdos, Keyboard.ms_dos)
    ∷ (KeyCode.key_muhenkan, Keyboard.muhenkan)
    ∷ (KeyCode.key_mute, Keyboard.mute)
    ∷ (KeyCode.key_n, Keyboard.n)
    ∷ (KeyCode.key_0, Keyboard.n0)
    ∷ (KeyCode.key_1, Keyboard.n1)
    ∷ (KeyCode.key_102nd, Keyboard.n102nd)
    ∷ (KeyCode.key_10channelsdown, Keyboard.n10_channels_down)
    ∷ (KeyCode.key_10channelsup, Keyboard.n10_channels_up)
    ∷ (KeyCode.key_2, Keyboard.n2)
    ∷ (KeyCode.key_3, Keyboard.n3)
    ∷ (KeyCode.key_3d_mode, Keyboard.n3d_mode)
    ∷ (KeyCode.key_4, Keyboard.n4)
    ∷ (KeyCode.key_5, Keyboard.n5)
    ∷ (KeyCode.key_6, Keyboard.n6)
    ∷ (KeyCode.key_7, Keyboard.n7)
    ∷ (KeyCode.key_8, Keyboard.n8)
    ∷ (KeyCode.key_9, Keyboard.n9)
    ∷ (KeyCode.key_new, Keyboard.new)
    ∷ (KeyCode.key_news, Keyboard.news)
    ∷ (KeyCode.key_next, Keyboard.next)
    ∷ (KeyCode.key_next_favorite, Keyboard.next_favorite)
    ∷ (KeyCode.key_nextsong, Keyboard.next_song)
    ∷ (KeyCode.key_numeric_0, Keyboard.numeric0)
    ∷ (KeyCode.key_numeric_1, Keyboard.numeric1)
    ∷ (KeyCode.key_numeric_11, Keyboard.numeric11)
    ∷ (KeyCode.key_numeric_12, Keyboard.numeric12)
    ∷ (KeyCode.key_numeric_2, Keyboard.numeric2)
    ∷ (KeyCode.key_numeric_3, Keyboard.numeric3)
    ∷ (KeyCode.key_numeric_4, Keyboard.numeric4)
    ∷ (KeyCode.key_numeric_5, Keyboard.numeric5)
    ∷ (KeyCode.key_numeric_6, Keyboard.numeric6)
    ∷ (KeyCode.key_numeric_7, Keyboard.numeric7)
    ∷ (KeyCode.key_numeric_8, Keyboard.numeric8)
    ∷ (KeyCode.key_numeric_9, Keyboard.numeric9)
    ∷ (KeyCode.key_numeric_a, Keyboard.numeric_a)
    ∷ (KeyCode.key_numeric_b, Keyboard.numeric_b)
    ∷ (KeyCode.key_numeric_c, Keyboard.numeric_c)
    ∷ (KeyCode.key_numeric_d, Keyboard.numeric_d)
    ∷ (KeyCode.key_numeric_pound, Keyboard.numeric_pound)
    ∷ (KeyCode.key_numeric_star, Keyboard.numeric_star)
    ∷ (KeyCode.key_numlock, Keyboard.num_lock)
    ∷ (KeyCode.key_o, Keyboard.o)
    ∷ (KeyCode.key_ok, Keyboard.ok)
    ∷ (KeyCode.key_onscreen_keyboard, Keyboard.onscreen_keyboard)
    ∷ (KeyCode.key_open, Keyboard.open_key)
    ∷ (KeyCode.key_option, Keyboard.option)
    ∷ (KeyCode.key_p, Keyboard.p)
    ∷ (KeyCode.key_pagedown, Keyboard.page_down)
    ∷ (KeyCode.key_pageup, Keyboard.page_up)
    ∷ (KeyCode.key_paste, Keyboard.paste)
    ∷ (KeyCode.key_pause, Keyboard.pause)
    ∷ (KeyCode.key_pause_record, Keyboard.pause_record)
    ∷ (KeyCode.key_pausecd, Keyboard.pause_cd)
    ∷ (KeyCode.key_pc, Keyboard.pc)
    ∷ (KeyCode.key_phone, Keyboard.phone)
    ∷ (KeyCode.key_play, Keyboard.play)
    ∷ (KeyCode.key_playcd, Keyboard.play_cd)
    ∷ (KeyCode.key_player, Keyboard.player)
    ∷ (KeyCode.key_playpause, Keyboard.play_pause)
    ∷ (KeyCode.key_power, Keyboard.power)
    ∷ (KeyCode.key_power2, Keyboard.power2)
    ∷ (KeyCode.key_presentation, Keyboard.presentation)
    ∷ (KeyCode.key_previous, Keyboard.previous)
    ∷ (KeyCode.key_previoussong, Keyboard.previous_song)
    ∷ (KeyCode.key_print, Keyboard.print)
    ∷ (KeyCode.key_privacy_screen_toggle, Keyboard.privacy_screen_toggle)
    ∷ (KeyCode.key_prog1, Keyboard.prog1)
    ∷ (KeyCode.key_prog2, Keyboard.prog2)
    ∷ (KeyCode.key_prog3, Keyboard.prog3)
    ∷ (KeyCode.key_prog4, Keyboard.prog4)
    ∷ (KeyCode.key_program, Keyboard.program)
    ∷ (KeyCode.key_props, Keyboard.props)
    ∷ (KeyCode.key_pvr, Keyboard.pvr)
    ∷ (KeyCode.key_q, Keyboard.q)
    ∷ (KeyCode.key_question, Keyboard.question)
    ∷ (KeyCode.key_r, Keyboard.r)
    ∷ (KeyCode.key_radio, Keyboard.radio)
    ∷ (KeyCode.key_record, Keyboard.record_key)
    ∷ (KeyCode.key_red, Keyboard.red)
    ∷ (KeyCode.key_redo, Keyboard.redo)
    ∷ (KeyCode.key_refresh, Keyboard.refresh)
    ∷ (KeyCode.key_reply, Keyboard.reply)
    ∷ (KeyCode.key_reserved, Keyboard.reserved)
    ∷ (KeyCode.key_restart, Keyboard.restart)
    ∷ (KeyCode.key_rewind, Keyboard.rewind)
    ∷ (KeyCode.key_rfkill, Keyboard.rf_kill)
    ∷ (KeyCode.key_right, Keyboard.right)
    ∷ (KeyCode.key_right_down, Keyboard.right_down)
    ∷ (KeyCode.key_right_up, Keyboard.right_up)
    ∷ (KeyCode.key_rightalt, Keyboard.right_alt)
    ∷ (KeyCode.key_rightbrace, Keyboard.right_brace)
    ∷ (KeyCode.key_rightctrl, Keyboard.right_ctrl)
    ∷ (KeyCode.key_rightmeta, Keyboard.right_meta)
    ∷ (KeyCode.key_rightshift, Keyboard.right_shift)
    ∷ (KeyCode.key_ro, Keyboard.ro)
    ∷ (KeyCode.key_root_menu, Keyboard.root_menu)
    ∷ (KeyCode.key_rotate_display, Keyboard.rotate_display)
    ∷ (KeyCode.key_rotate_lock_toggle, Keyboard.rotate_lock_toggle)
    ∷ (KeyCode.key_s, Keyboard.s)
    ∷ (KeyCode.key_sat, Keyboard.sat)
    ∷ (KeyCode.key_sat2, Keyboard.sat2)
    ∷ (KeyCode.key_save, Keyboard.save)
    ∷ (KeyCode.key_scale, Keyboard.scale)
    ∷ (KeyCode.key_screensaver, Keyboard.screensaver)
    ∷ (KeyCode.key_scrolldown, Keyboard.scroll_down)
    ∷ (KeyCode.key_scrolllock, Keyboard.scroll_lock)
    ∷ (KeyCode.key_scrollup, Keyboard.scroll_up)
    ∷ (KeyCode.key_search, Keyboard.search_key)
    ∷ (KeyCode.key_select, Keyboard.select)
    ∷ (KeyCode.key_selective_screenshot, Keyboard.selective_screenshot)
    ∷ (KeyCode.key_semicolon, Keyboard.semicolon)
    ∷ (KeyCode.key_send, Keyboard.send)
    ∷ (KeyCode.key_sendfile, Keyboard.send_file)
    ∷ (KeyCode.key_setup, Keyboard.setup)
    ∷ (KeyCode.key_shop, Keyboard.shop)
    ∷ (KeyCode.key_shuffle, Keyboard.shuffle)
    ∷ (KeyCode.key_slash, Keyboard.slash)
    ∷ (KeyCode.key_sleep, Keyboard.sleep)
    ∷ (KeyCode.key_slow, Keyboard.slow)
    ∷ (KeyCode.key_slowreverse, Keyboard.slow_reverse)
    ∷ (KeyCode.key_sound, Keyboard.sound)
    ∷ (KeyCode.key_space, Keyboard.space)
    ∷ (KeyCode.key_spellcheck, Keyboard.spellcheck)
    ∷ (KeyCode.key_sport, Keyboard.sport)
    ∷ (KeyCode.key_spreadsheet, Keyboard.spreadsheet)
    ∷ (KeyCode.key_stop, Keyboard.stop)
    ∷ (KeyCode.key_stop_record, Keyboard.stop_record)
    ∷ (KeyCode.key_stopcd, Keyboard.stop_cd)
    ∷ (KeyCode.key_subtitle, Keyboard.subtitle)
    ∷ (KeyCode.key_suspend, Keyboard.suspend)
    ∷ (KeyCode.key_switchvideomode, Keyboard.switch_video_mode)
    ∷ (KeyCode.key_sysrq, Keyboard.sys_rq)
    ∷ (KeyCode.key_t, Keyboard.t)
    ∷ (KeyCode.key_tab, Keyboard.tab)
    ∷ (KeyCode.key_tape, Keyboard.tape)
    ∷ (KeyCode.key_taskmanager, Keyboard.task_manager)
    ∷ (KeyCode.key_teen, Keyboard.teen)
    ∷ (KeyCode.key_text, Keyboard.text)
    ∷ (KeyCode.key_time, Keyboard.time)
    ∷ (KeyCode.key_title, Keyboard.title)
    ∷ (KeyCode.key_touchpad_off, Keyboard.touchpad_off)
    ∷ (KeyCode.key_touchpad_on, Keyboard.touchpad_on)
    ∷ (KeyCode.key_touchpad_toggle, Keyboard.touchpad_toggle)
    ∷ (KeyCode.key_tuner, Keyboard.tuner)
    ∷ (KeyCode.key_tv, Keyboard.tv)
    ∷ (KeyCode.key_tv2, Keyboard.tv2)
    ∷ (KeyCode.key_twen, Keyboard.twen)
    ∷ (KeyCode.key_u, Keyboard.u)
    ∷ (KeyCode.key_undo, Keyboard.undo)
    ∷ (KeyCode.key_unknown, Keyboard.unknown)
    ∷ (KeyCode.key_unmute, Keyboard.unmute)
    ∷ (KeyCode.key_up, Keyboard.up)
    ∷ (KeyCode.key_uwb, Keyboard.uwb)
    ∷ (KeyCode.key_v, Keyboard.v)
    ∷ (KeyCode.key_vcr, Keyboard.vcr)
    ∷ (KeyCode.key_vcr2, Keyboard.vcr2)
    ∷ (KeyCode.key_vendor, Keyboard.vendor)
    ∷ (KeyCode.key_video, Keyboard.video)
    ∷ (KeyCode.key_video_next, Keyboard.video_next)
    ∷ (KeyCode.key_video_prev, Keyboard.video_prev)
    ∷ (KeyCode.key_videophone, Keyboard.video_phone)
    ∷ (KeyCode.key_vod, Keyboard.vod)
    ∷ (KeyCode.key_voicecommand, Keyboard.voice_command)
    ∷ (KeyCode.key_voicemail, Keyboard.voice_mail)
    ∷ (KeyCode.key_volumedown, Keyboard.volume_down)
    ∷ (KeyCode.key_volumeup, Keyboard.volume_up)
    ∷ (KeyCode.key_w, Keyboard.w)
    ∷ (KeyCode.key_wakeup, Keyboard.wake_up)
    ∷ (KeyCode.key_wlan, Keyboard.wlan)
    ∷ (KeyCode.key_wordprocessor, Keyboard.word_processor)
    ∷ (KeyCode.key_wps_button, Keyboard.wps_button)
    ∷ (KeyCode.key_wwan, Keyboard.wwan)
    ∷ (KeyCode.key_www, Keyboard.www)
    ∷ (KeyCode.key_x, Keyboard.x)
    ∷ (KeyCode.key_xfer, Keyboard.xfer)
    ∷ (KeyCode.key_y, Keyboard.y)
    ∷ (KeyCode.key_yellow, Keyboard.yellow)
    ∷ (KeyCode.key_yen, Keyboard.yen)
    ∷ (KeyCode.key_z, Keyboard.z)
    ∷ (KeyCode.key_zenkakuhankaku, Keyboard.zenkaku_hankaku)
    ∷ (KeyCode.key_zoomin, Keyboard.zoom_in)
    ∷ (KeyCode.key_zoomout, Keyboard.zoom_out)
    ∷ (KeyCode.key_zoomreset, Keyboard.zoom_reset)
    ∷ []

abbrev pub button_arms : List (BtnCode × Button)
button_arms =
    (BtnCode.btn_0, Button.b0)
    ∷ (BtnCode.btn_1, Button.b1)
    ∷ (BtnCode.btn_2, Button.b2)
    ∷ (BtnCode.btn_3, Button.b3)
    ∷ (BtnCode.btn_4, Button.b4)
    ∷ (BtnCode.btn_5, Button.b5)
    ∷ (BtnCode.btn_6, Button.b6)
    ∷ (BtnCode.btn_7, Button.b7)
    ∷ (BtnCode.btn_8, Button.b8)
    ∷ (BtnCode.btn_9, Button.b9)
    ∷ (BtnCode.btn_left, Button.left)
    ∷ (BtnCode.btn_right, Button.right)
    ∷ (BtnCode.btn_middle, Button.middle)
    ∷ (BtnCode.btn_side, Button.side)
    ∷ (BtnCode.btn_extra, Button.extra)
    ∷ (BtnCode.btn_forward, Button.forward)
    ∷ (BtnCode.btn_back, Button.back)
    ∷ (BtnCode.btn_task, Button.task)
    ∷ (BtnCode.btn_trigger, Button.trigger)
    ∷ (BtnCode.btn_thumb, Button.thumb)
    ∷ (BtnCode.btn_thumb2, Button.thumb2)
    ∷ (BtnCode.btn_top, Button.top)
    ∷ (BtnCode.btn_top2, Button.top2)
    ∷ (BtnCode.btn_pinkie, Button.pinkie)
    ∷ (BtnCode.btn_base, Button.base)
    ∷ (BtnCode.btn_base2, Button.base2)
    ∷ (BtnCode.btn_base3, Button.base3)
    ∷ (BtnCode.btn_base4, Button.base4)
    ∷ (BtnCode.btn_base5, Button.base5)
    ∷ (BtnCode.btn_base6, Button.base6)
    ∷ (BtnCode.btn_dead, Button.dead)
    ∷ (BtnCode.btn_south, Button.south)
    ∷ (BtnCode.btn_east, Button.east)
    ∷ (BtnCode.btn_c, Button.c)
    ∷ (BtnCode.btn_north, Button.north)
    ∷ (BtnCode.btn_west, Button.west)
    ∷ (BtnCode.btn_z, Button.z)
    ∷ (BtnCode.btn_tl, Button.tl)
    ∷ (BtnCode.btn_tr, Button.tr)
    ∷ (BtnCode.btn_tl2, Button.tl2)
    ∷ (BtnCode.btn_tr2, Button.tr2)
    ∷ (BtnCode.btn_select, Button.select)
    ∷ (BtnCode.btn_start, Button.start)
    ∷ (BtnCode.btn_mode, Button.mode)
    ∷ (BtnCode.btn_thumbl, Button.thumb_l)
    ∷ (BtnCode.btn_thumbr, Button.thumb_r)
    ∷ (BtnCode.btn_tool_pen, Button.tool_pen)
    ∷ (BtnCode.btn_tool_rubber, Button.tool_rubber)
    ∷ (BtnCode.btn_tool_brush, Button.tool_brush)
    ∷ (BtnCode.btn_tool_pencil, Button.tool_pencil)
    ∷ (BtnCode.btn_tool_airbrush, Button.tool_airbrush)
    ∷ (BtnCode.btn_tool_finger, Button.tool_finger)
    ∷ (BtnCode.btn_tool_mouse, Button.tool_mouse)
    ∷ (BtnCode.btn_tool_lens, Button.tool_lens)
    ∷ (BtnCode.btn_tool_quinttap, Button.quint_tap)
    ∷ (BtnCode.btn_stylus3, Button.stylus3)
    ∷ (BtnCode.btn_touch, Button.touch)
    ∷ (BtnCode.btn_stylus, Button.stylus)
    ∷ (BtnCode.btn_stylus2, Button.stylus2)
    ∷ (BtnCode.btn_tool_doubletap, Button.double_tap)
    ∷ (BtnCode.btn_tool_tripletap, Button.triple_tap)
    ∷ (BtnCode.btn_tool_quadtap, Button.quad_tap)
    ∷ (BtnCode.btn_gear_down, Button.gear_down)
    ∷ (BtnCode.btn_gear_up, Button.gear_up)
    ∷ (BtnCode.btn_dpad_up, Button.dpad_up)
    ∷ (BtnCode.btn_dpad_down, Button.dpad_down)
    ∷ (BtnCode.btn_dpad_left, Button.dpad_left)
    ∷ (BtnCode.btn_dpad_right, Button.dpad_right)
    ∷ (BtnCode.btn_trigger_happy1, Button.trigger_happy1)
    ∷ (BtnCode.btn_trigger_happy2, Button.triger_happy2)
    ∷ (BtnCode.btn_trigger_happy3, Button.trigger_happy3)
    ∷ (BtnCode.btn_trigger_happy4, Button.trigger_happy4)
    ∷ (BtnCode.btn_trigger_happy5, Button.trigger_happy5)
    ∷ (BtnCode.btn_trigger_happy6, Button.trigger_happy6)
    ∷ (BtnCode.btn_trigger_happy7, Button.trigger_happy7)
    ∷ (BtnCode.btn_trigger_happy8, Button.trigger_happy8)
    ∷ (BtnCode.btn_trigger_happy9, Button.trigger_happy9)
    ∷ (BtnCode.btn_trigger_happy10, Button.trigger_happy10)
    ∷ (BtnCode.btn_trigger_happy11, Button.trigger_happy11)
    ∷ (BtnCode.btn_trigger_happy12, Button.trigger_happy12)
    ∷ (BtnCode.btn_trigger_happy13, Button.trigger_happy13)
    ∷ (BtnCode.btn_trigger_happy14, Button.trigger_happy14)
    ∷ (BtnCode.btn_trigger_happy15, Button.trigger_happy15)
    ∷ (BtnCode.btn_trigger_happy16, Button.trigger_happy16)
    ∷ (BtnCode.btn_trigger_happy17, Button.trigger_happy17)
    ∷ (BtnCode.btn_trigger_happy18, Button.trigger_happy18)
    ∷ (BtnCode.btn_trigger_happy19, Button.trigger_happy19)
    ∷ (BtnCode.btn_trigger_happy20, Button.trigger_happy20)
    ∷ (BtnCode.btn_trigger_happy21, Button.trigger_happy21)
    ∷ (BtnCode.btn_trigger_happy22, Button.trigger_happy22)
    ∷ (BtnCode.btn_trigger_happy23, Button.trigger_happy23)
    ∷ (BtnCode.btn_trigger_happy24, Button.trigger_happy24)
    ∷ (BtnCode.btn_trigger_happy25, Button.trigger_happy25)
    ∷ (BtnCode.btn_trigger_happy26, Button.trigger_happy26)
    ∷ (BtnCode.btn_trigger_happy27, Button.trigger_happy27)
    ∷ (BtnCode.btn_trigger_happy28, Button.trigger_happy28)
    ∷ (BtnCode.btn_trigger_happy29, Button.trigger_happy29)
    ∷ (BtnCode.btn_trigger_happy30, Button.trigger_happy30)
    ∷ (BtnCode.btn_trigger_happy31, Button.trigger_happy31)
    ∷ (BtnCode.btn_trigger_happy32, Button.trigger_happy32)
    ∷ (BtnCode.btn_trigger_happy33, Button.trigger_happy33)
    ∷ (BtnCode.btn_trigger_happy34, Button.trigger_happy34)
    ∷ (BtnCode.btn_trigger_happy35, Button.trigger_happy35)
    ∷ (BtnCode.btn_trigger_happy36, Button.trigger_happy36)
    ∷ (BtnCode.btn_trigger_happy37, Button.trigger_happy37)
    ∷ (BtnCode.btn_trigger_happy38, Button.trigger_happy38)
    ∷ (BtnCode.btn_trigger_happy39, Button.trigger_happy39)
    ∷ (BtnCode.btn_trigger_happy40, Button.trigger_happy40)
    ∷ []
