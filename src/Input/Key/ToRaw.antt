-- ===== src/Input/Key/ToRaw.antt =====
-- rkvm-input/src/key/keyboard.rs and key/button.rs: the arms of `to_raw`.
use rkvm.Input.Codes.{KeyCode, BtnCode}
use rkvm.Input.Key.Keys.{Keyboard}
use rkvm.Input.Key.Buttons.{Button}

unfoldable pub keyboard_constant : Keyboard → KeyCode
keyboard_constant Keyboard.a = KeyCode.key_a
keyboard_constant Keyboard.ab = KeyCode.key_ab
keyboard_constant Keyboard.address_book = KeyCode.key_addressbook
keyboard_constant Keyboard.again = KeyCode.key_again
keyboard_constant Keyboard.als_toggle = KeyCode.key_als_toggle
keyboard_constant Keyboard.alt_erase = KeyCode.key_alterase
keyboard_constant Keyboard.angle = KeyCode.key_angle
keyboard_constant Keyboard.apostrophe = KeyCode.key_apostrophe
keyboard_constant Keyboard.appselect = KeyCode.key_appselect
keyboard_constant Keyboard.archive = KeyCode.key_archive
keyboard_constant Keyboard.aspect_ratio = KeyCode.key_aspect_ratio
keyboard_constant Keyboard.assistant = KeyCode.key_assistant
keyboard_constant Keyboard.attendant_off = KeyCode.key_attendant_off
keyboard_constant Keyboard.attendant_on = KeyCode.key_attendant_on
keyboard_constant Keyboard.attendant_toggle = KeyCode.key_attendant_toggle
keyboard_constant Keyboard.audio = KeyCode.key_audio
keyboard_constant Keyboard.audio_desc = KeyCode.key_audio_desc
keyboard_constant Keyboard.aux = KeyCode.key_aux
keyboard_constant Keyboard.b = KeyCode.key_b
keyboard_constant Keyboard.back = KeyCode.key_back
keyboard_constant Keyboard.backslash = KeyCode.key_backslash
keyboard_constant Keyboard.backspace = KeyCode.key_backspace
keyboard_constant Keyboard.bass_boost = KeyCode.key_bassboost
keyboard_constant Keyboard.battery = KeyCode.key_battery
keyboard_constant Keyboard.blue = KeyCode.key_blue
keyboard_constant Keyboard.bluetooth = KeyCode.key_bluetooth
keyboard_constant Keyboard.bookmarks = KeyCode.key_bookmarks
keyboard_constant Keyboard.break = KeyCode.key_break
keyboard_constant Keyboard.brightness_auto = KeyCode.key_brightness_auto
keyboard_constant Keyboard.brightness_cycle = KeyCode.key_brightness_cycle
keyboard_constant Keyboard.brightness_max = KeyCode.key_brightness_max
keyboard_constant Keyboard.brightness_min = KeyCode.key_brightness_min
keyboard_constant Keyboard.brightness_toggle = KeyCode.key_brightness_toggle
keyboard_constant Keyboard.brightness_down = KeyCode.key_brightnessdown
keyboard_constant Keyboard.brightness_up = KeyCode.key_brightnessup
keyboard_constant Keyboard.brl_dot1 = KeyCode.key_brl_dot1
keyboard_constant Keyboard.brl_dot10 = KeyCode.key_brl_dot10
keyboard_constant Keyboard.brl_dot2 = KeyCode.key_brl_dot2
keyboard_constant Keyboard.brl_dot3 = KeyCode.key_brl_dot3
keyboard_constant Keyboard.brl_dot4 = KeyCode.key_brl_dot4
keyboard_constant Keyboard.brl_dot5 = KeyCode.key_brl_dot5
keyboard_constant Keyboard.brl_dot6 = KeyCode.key_brl_dot6
keyboard_constant Keyboard.brl_dot7 = KeyCode.key_brl_dot7
keyboard_constant Keyboard.brl_dot8 = KeyCode.key_brl_dot8
keyboard_constant Keyboard.brl_dot9 = KeyCode.key_brl_dot9
keyboard_constant Keyboard.button_config = KeyCode.key_buttonconfig
keyboard_constant Keyboard.c = KeyCode.key_c
keyboard_constant Keyboard.calc = KeyCode.key_calc
keyboard_constant Keyboard.calendar = KeyCode.key_calendar
keyboard_constant Keyboard.camera = KeyCode.key_camera
keyboard_constant Keyboard.camera_down = KeyCode.key_camera_down
keyboard_constant Keyboard.camera_focus = KeyCode.key_camera_focus
keyboard_constant Keyboard.camera_left = KeyCode.key_camera_left
keyboard_constant Keyboard.camera_right = KeyCode.key_camera_right
keyboard_constant Keyboard.camera_up = KeyCode.key_camera_up
keyboard_constant Keyboard.camera_zoom_in = KeyCode.key_camera_zoomin
keyboard_constant Keyboard.camera_zoom_out = KeyCode.key_camera_zoomout
keyboard_constant Keyboard.cancel = KeyCode.key_cancel
keyboard_constant Keyboard.caps_lock = KeyCode.key_capslock
keyboard_constant Keyboard.cd = KeyCode.key_cd
keyboard_constant Keyboard.channel = KeyCode.key_channel
keyboard_constant Keyboard.channel_down = KeyCode.key_channeldown
keyboard_constant Keyboard.channel_up = KeyCode.key_channelup
keyboard_constant Keyboard.chat = KeyCode.key_chat
keyboard_constant Keyboard.clear = KeyCode.key_clear
keyboard_constant Keyboard.close = KeyCode.key_close
keyboard_constant Keyboard.close_cd = KeyCode.key_closecd
keyboard_constant Keyboard.coffee = KeyCode.key_coffee
keyboard_constant Keyboard.comma = KeyCode.key_comma
keyboard_constant Keyboard.compose = KeyCode.key_compose
keyboard_constant Keyboard.computer = KeyCode.key_computer
keyboard_constant Keyboard.config = KeyCode.key_config
keyboard_constant Keyboard.connect = KeyCode.key_connect
keyboard_constant Keyboard.context_menu = KeyCode.key_context_menu
keyboard_constant Keyboard.controlpanel = KeyCode.key_controlpanel
keyboard_constant Keyboard.copy = KeyCode.key_copy
keyboard_constant Keyboard.cut = KeyCode.key_cut
keyboard_constant Keyboard.cycle_windows = KeyCode.key_cyclewindows
keyboard_constant Keyboard.d = KeyCode.key_d
keyboard_constant Keyboard.dashboard = KeyCode.key_dashboard
keyboard_constant Keyboard.data_key = KeyCode.key_data
keyboard_constant Keyboard.database = KeyCode.key_database
keyboard_constant Keyboard.del_eol = KeyCode.key_del_eol
keyboard_constant Keyboard.del_eos = KeyCode.key_del_eos
keyboard_constant Keyboard.del_line = KeyCode.key_del_line
keyboard_constant Keyboard.delete = KeyCode.key_delete
keyboard_constant Keyboard.delete_file = KeyCode.key_deletefile
keyboard_constant Keyboard.digits = KeyCode.key_digits
keyboard_constant Keyboard.directory = KeyCode.key_directory
keyboard_constant Keyboard.display_off = KeyCode.key_display_off
keyboard_constant Keyboard.display_toggle = KeyCode.key_displaytoggle
keyboard_constant Keyboard.documents = KeyCode.key_documents
keyboard_constant Keyboard.dollar = KeyCode.key_dollar
keyboard_constant Keyboard.dot = KeyCode.key_dot
keyboard_constant Keyboard.down = KeyCode.key_down
keyboard_constant Keyboard.dvd = KeyCode.key_dvd
keyboard_constant Keyboard.e = KeyCode.key_e
keyboard_constant Keyboard.edit = KeyCode.key_edit
keyboard_constant Keyboard.editor = KeyCode.key_editor
keyboard_constant Keyboard.eject_cd = KeyCode.key_ejectcd
keyboard_constant Keyboard.eject_close_cd = KeyCode.key_ejectclosecd
keyboard_constant Keyboard.email = KeyCode.key_email
keyboard_constant Keyboard.end = KeyCode.key_end
keyboard_constant Keyboard.enter = KeyCode.key_enter
keyboard_constant Keyboard.epg = KeyCode.key_epg
keyboard_constant Keyboard.equal = KeyCode.key_equal
keyboard_constant Keyboard.esc = KeyCode.key_esc
keyboard_constant Keyboard.euro = KeyCode.key_euro
keyboard_constant Keyboard.exit = KeyCode.key_exit
keyboard_constant Keyboard.f = KeyCode.key_f
keyboard_constant Keyboard.f1 = KeyCode.key_f1
keyboard_constant Keyboard.f10 = KeyCode.key_f10
keyboard_constant Keyboard.f11 = KeyCode.key_f11
keyboard_constant Keyboard.f12 = KeyCode.key_f12
keyboard_constant Keyboard.f13 = KeyCode.key_f13
keyboard_constant Keyboard.f14 = KeyCode.key_f14
keyboard_constant Keyboard.f15 = KeyCode.key_f15
keyboard_constant Keyboard.f16 = KeyCode.key_f16
keyboard_constant Keyboard.f17 = KeyCode.key_f17
keyboard_constant Keyboard.f18 = KeyCode.key_f18
keyboard_constant Keyboard.f19 = KeyCode.key_f19
keyboard_constant Keyboard.f2 = KeyCode.key_f2
keyboard_constant Keyboard.f20 = KeyCode.key_f20
keyboard_constant Keyboard.f21 = KeyCode.key_f21
keyboard_constant Keyboard.f22 = KeyCode.key_f22
keyboard_constant Keyboard.f23 = KeyCode.key_f23
keyboard_constant Keyboard.f24 = KeyCode.key_f24
keyboard_constant Keyboard.f3 = KeyCode.key_f3
keyboard_constant Keyboard.f4 = KeyCode.key_f4
keyboard_constant Keyboard.f5 = KeyCode.key_f5
keyboard_constant Keyboard.f6 = KeyCode.key_f6
keyboard_constant Keyboard.f7 = KeyCode.key_f7
keyboard_constant Keyboard.f8 = KeyCode.key_f8
keyboard_constant Keyboard.f9 = KeyCode.key_f9
keyboard_constant Keyboard.fast_forward = KeyCode.key_fastforward
keyboard_constant Keyboard.fast_reverse = KeyCode.key_fastreverse
keyboard_constant Keyboard.favorites = KeyCode.key_favorites
keyboard_constant Keyboard.file = KeyCode.key_file
keyboard_constant Keyboard.finance = KeyCode.key_finance
keyboard_constant Keyboard.find = KeyCode.key_find
keyboard_constant Keyboard.first = KeyCode.key_first
keyboard_constant Keyboard.fn = KeyCode.key_fn
keyboard_constant Keyboard.fn1 = KeyCode.key_fn_1
keyboard_constant Keyboard.fn2 = KeyCode.key_fn_2
keyboard_constant Keyboard.fn_b = KeyCode.key_fn_b
keyboard_constant Keyboard.fn_d = KeyCode.key_fn_d
keyboard_constant Keyboard.fn_e = KeyCode.key_fn_e
keyboard_constant Keyboard.fn_esc = KeyCode.key_fn_esc
keyboard_constant Keyboard.fn_f = KeyCode.key_fn_f
keyboard_constant Keyboard.fn_f1 = KeyCode.key_fn_f1
keyboard_constant Keyboard.fn_f10 = KeyCode.key_fn_f10
keyboard_constant Keyboard.fn_f11 = KeyCode.key_fn_f11
keyboard_constant Keyboard.fn_f12 = KeyCode.key_fn_f12
keyboard_constant Keyboard.fn_f2 = KeyCode.key_fn_f2
keyboard_constant Keyboard.fn_f3 = KeyCode.key_fn_f3
keyboard_constant Keyboard.fn_f4 = KeyCode.key_fn_f4
keyboard_constant Keyboard.fn_f5 = KeyCode.key_fn_f5
keyboard_constant Keyboard.fn_f6 = KeyCode.key_fn_f6
keyboard_constant Keyboard.fn_f7 = KeyCode.key_fn_f7
keyboard_constant Keyboard.fn_f8 = KeyCode.key_fn_f8
keyboard_constant Keyboard.fn_f9 = KeyCode.key_fn_f9
keyboard_constant Keyboard.fn_s = KeyCode.key_fn_s
keyboard_constant Keyboard.forward = KeyCode.key_forward
keyboard_constant Keyboard.forward_mail = KeyCode.key_forwardmail
keyboard_constant Keyboard.frameback = KeyCode.key_frameback
keyboard_constant Keyboard.frame_forward = KeyCode.key_frameforward
keyboard_constant Keyboard.front = KeyCode.key_front
keyboard_constant Keyboard.full_screen = KeyCode.key_full_screen
keyboard_constant Keyboard.g = KeyCode.key_g
keyboard_constant Keyboard.games = KeyCode.key_games
keyboard_constant Keyboard.goto = KeyCode.key_goto
keyboard_constant Keyboard.graphics_editor = KeyCode.key_graphicseditor
keyboard_constant Keyboard.grave = KeyCode.key_grave
keyboard_constant Keyboard.green = KeyCode.key_green
keyboard_constant Keyboard.h = KeyCode.key_h
keyboard_constant Keyboard.hangeul = KeyCode.key_hangeul
keyboard_constant Keyboard.hanja = KeyCode.key_hanja
keyboard_constant Keyboard.help = KeyCode.key_help
keyboard_constant Keyboard.henkan = KeyCode.key_henkan
keyboard_constant Keyboard.hiragana = KeyCode.key_hiragana
keyboard_constant Keyboard.home = KeyCode.key_home
keyboard_constant Keyboard.homepage = KeyCode.key_homepage
keyboard_constant Keyboard.hp = KeyCode.key_hp
keyboard_constant Keyboard.i = KeyCode.key_i
keyboard_constant Keyboard.images = KeyCode.key_images
keyboard_constant Keyboard.info = KeyCode.key_info
keyboard_constant Keyboard.ins_line = KeyCode.key_ins_line
keyboard_constant Keyboard.insert = KeyCode.key_insert
keyboard_constant Keyboard.iso = KeyCode.key_iso
keyboard_constant Keyboard.j = KeyCode.key_j
keyboard_constant Keyboard.journal = KeyCode.key_journal
keyboard_constant Keyboard.k = KeyCode.key_k
keyboard_constant Keyboard.katakana = KeyCode.key_katakana
keyboard_constant Keyboard.katakana_hiragana = KeyCode.key_katakanahiragana
keyboard_constant Keyboard.kbd_layout_next = KeyCode.key_kbd_layout_next
keyboard_constant Keyboard.kbd_lcd_menu1 = KeyCode.key_kbd_lcd_menu1
keyboard_constant Keyboard.kbd_lcd_menu2 = KeyCode.key_kbd_lcd_menu2
keyboard_constant Keyboard.kbd_lcd_menu3 = KeyCode.key_kbd_lcd_menu3
keyboard_constant Keyboard.kbd_lcd_menu4 = KeyCode.key_kbd_lcd_menu4
keyboard_constant Keyboard.kbd_lcd_menu5 = KeyCode.key_kbd_lcd_menu5
keyboard_constant Keyboard.kbd_illum_down = KeyCode.key_kbdillumdown
keyboard_constant Keyboard.kbd_illum_toggle = KeyCode.key_kbdillumtoggle
keyboard_constant Keyboard.kbd_illum_up = KeyCode.key_kbdillumup
keyboard_constant Keyboard.kbd_input_assist_accept = KeyCode.key_kbdinputassist_accept
keyboard_constant Keyboard.kbd_input_assist_cancel = KeyCode.key_kbdinputassist_cancel
keyboard_constant Keyboard.kbd_input_assist_next = KeyCode.key_kbdinputassist_next
keyboard_constant Keyboard.kbd_input_assist_nextgroup = KeyCode.key_kbdinputassist_nextgroup
keyboard_constant Keyboard.kbd_input_assist_prev = KeyCode.key_kbdinputassist_prev
keyboard_constant Keyboard.kbd_input_assist_prevgroup = KeyCode.key_kbdinputassist_prevgroup
keyboard_constant Keyboard.keyboard = KeyCode.key_keyboard
keyboard_constant Keyboard.kp0 = KeyCode.key_kp0
keyboard_constant Keyboard.kp1 = KeyCode.key_kp1
keyboard_constant Keyboard.kp2 = KeyCode.key_kp2
keyboard_constant Keyboard.kp3 = KeyCode.key_kp3
keyboard_constant Keyboard.kp4 = KeyCode.key_kp4
keyboard_constant Keyboard.kp5 = KeyCode.key_kp5
keyboard_constant Keyboard.kp6 = KeyCode.key_kp6
keyboard_constant Keyboard.kp7 = KeyCode.key_kp7
keyboard_constant Keyboard.kp8 = KeyCode.key_kp8
keyboard_constant Keyboard.kp9 = KeyCode.key_kp9
keyboard_constant Keyboard.kp_asterisk = KeyCode.key_kpasterisk
keyboard_constant Keyboard.kp_comma = KeyCode.key_kpcomma
keyboard_constant Keyboard.kp_dot = KeyCode.key_kpdot
keyboard_constant Keyboard.kp_enter = KeyCode.key_kpenter
keyboard_constant Keyboard.kp_equal = KeyCode.key_kpequal
keyboard_constant Keyboard.kp_jp_comma = KeyCode.key_kpjpcomma
keyboard_constant Keyboard.kp_left_paren = KeyCode.key_kpleftparen
keyboard_constant Keyboard.kp_minus = KeyCode.key_kpminus
keyboard_constant Keyboard.kp_plus = KeyCode.key_kpplus
keyboard_constant Keyboard.kp_plus_minus = KeyCode.key_kpplusminus
keyboard_constant Keyboard.kp_right_paren = KeyCode.key_kprightparen
keyboard_constant Keyboard.kp_slash = KeyCode.key_kpslash
keyboard_constant Keyboard.l = KeyCode.key_l
keyboard_constant Keyboard.language = KeyCode.key_language
keyboard_constant Keyboard.last = KeyCode.key_last
keyboard_constant Keyboard.left = KeyCode.key_left
keyboard_constant Keyboard.left_down = KeyCode.key_left_down
keyboard_constant Keyboard.left_up = KeyCode.key_left_up
keyboard_constant Keyboard.left_alt = KeyCode.key_leftalt
keyboard_constant Keyboard.left_brace = KeyCode.key_leftbrace
keyboard_constant Keyboard.left_ctrl = KeyCode.key_leftctrl
keyboard_constant Keyboard.left_meta = KeyCode.key_leftmeta
keyboard_constant Keyboard.left_shift = KeyCode.key_leftshift
keyboard_constant Keyboard.lights_toggle = KeyCode.key_lights_toggle
keyboard_constant Keyboard.line_feed = KeyCode.key_linefeed
keyboard_constant Keyboard.list = KeyCode.key_list
keyboard_constant Keyboard.log_off = KeyCode.key_logoff
keyboard_constant Keyboard.m = KeyCode.key_m
keyboard_constant Keyboard.macro = KeyCode.key_macro
keyboard_constant Keyboard.macro1 = KeyCode.key_macro1
keyboard_constant Keyboard.macro10 = KeyCode.key_macro10
keyboard_constant Keyboard.macro11 = KeyCode.key_macro11
keyboard_constant Keyboard.macro12 = KeyCode.key_macro12
keyboard_constant Keyboard.macro13 = KeyCode.key_macro13
keyboard_constant Keyboard.macro14 = KeyCode.key_macro14
keyboard_constant Keyboard.macro15 = KeyCode.key_macro15
keyboard_constant Keyboard.macro16 = KeyCode.key_macro16
keyboard_constant Keyboard.macro17 = KeyCode.key_macro17
keyboard_constant Keyboard.macro18 = KeyCode.key_macro18
keyboard_constant Keyboard.macro19 = KeyCode.key_macro19
keyboard_constant Keyboard.macro2 = KeyCode.key_macro2
keyboard_constant Keyboard.macro20 = KeyCode.key_macro20
keyboard_constant Keyboard.macro21 = KeyCode.key_macro21
keyboard_constant Keyboard.macro22 = KeyCode.key_macro22
keyboard_constant Keyboard.macro23 = KeyCode.key_macro23
keyboard_constant Keyboard.macro24 = KeyCode.key_macro24
keyboard_constant Keyboard.macro25 = KeyCode.key_macro25
keyboard_constant Keyboard.macro26 = KeyCode.key_macro26
keyboard_constant Keyboard.macro27 = KeyCode.key_macro27
keyboard_constant Keyboard.macro28 = KeyCode.key_macro28
keyboard_constant Keyboard.macro29 = KeyCode.key_macro29
keyboard_constant Keyboard.macro3 = KeyCode.key_macro3
keyboard_constant Keyboard.macro30 = KeyCode.key_macro30
keyboard_constant Keyboard.macro4 = KeyCode.key_macro4
keyboard_constant Keyboard.macro5 = KeyCode.key_macro5
keyboard_constant Keyboard.macro6 = KeyCode.key_macro6
keyboard_constant Keyboard.macro7 = KeyCode.key_macro7
keyboard_constant Keyboard.macro8 = KeyCode.key_macro8
keyboard_constant Keyboard.macro9 = KeyCode.key_macro9
keyboard_constant Keyboard.macro_preset1 = KeyCode.key_macro_preset1
keyboard_constant Keyboard.macro_preset2 = KeyCode.key_macro_preset2
keyboard_constant Keyboard.macro_preset3 = KeyCode.key_macro_preset3
keyboard_constant Keyboard.macro_preset_cycle = KeyCode.key_macro_preset_cycle
keyboard_constant Keyboard.macro_record_start = KeyCode.key_macro_record_start
keyboard_constant Keyboard.macro_record_stop = KeyCode.key_macro_record_stop
keyboard_constant Keyboard.mail = KeyCode.key_mail
keyboard_constant Keyboard.media = KeyCode.key_media
keyboard_constant Keyboard.media_repeat = KeyCode.key_media_repeat
keyboard_constant Keyboard.media_top_menu = KeyCode.key_media_top_menu
keyboard_constant Keyboard.memo = KeyCode.key_memo
keyboard_constant Keyboard.menu = KeyCode.key_menu
keyboard_constant Keyboard.messenger = KeyCode.key_messenger
keyboard_constant Keyboard.mhp = KeyCode.key_mhp
keyboard_constant Keyboard.mic_mute = KeyCode.key_micmute
keyboard_constant Keyboard.minus = KeyCode.key_minus
keyboard_constant Keyboard.mode = KeyCode.key_mode
keyboard_constant Keyboard.move = KeyCode.key_move
keyboard_constant Keyboard.mp3 = KeyCode.key_mp3
keyboard_constant Keyboard.ms_dos = KeyCode.key_msdos
keyboard_constant Keyboard.muhenkan = KeyCode.key_muhenkan
keyboard_constant Keyboard.mute = KeyCode.key_mute
keyboard_constant Keyboard.n = KeyCode.key_n
keyboard_constant Keyboard.n0 = KeyCode.key_0
keyboard_constant Keyboard.n1 = KeyCode.key_1
keyboard_constant Keyboard.n102nd = KeyCode.key_102nd
keyboard_constant Keyboard.n10_channels_down = KeyCode.key_10channelsdown
keyboard_constant Keyboard.n10_channels_up = KeyCode.key_10channelsup
keyboard_constant Keyboard.n2 = KeyCode.key_2
keyboard_constant Keyboard.n3 = KeyCode.key_3
keyboard_constant Keyboard.n3d_mode = KeyCode.key_3d_mode
keyboard_constant Keyboard.n4 = KeyCode.key_4
keyboard_constant Keyboard.n5 = KeyCode.key_5
keyboard_constant Keyboard.n6 = KeyCode.key_6
keyboard_constant Keyboard.n7 = KeyCode.key_7
keyboard_constant Keyboard.n8 = KeyCode.key_8
keyboard_constant Keyboard.n9 = KeyCode.key_9
keyboard_constant Keyboard.new = KeyCode.key_new
keyboard_constant Keyboard.news = KeyCode.key_news
keyboard_constant Keyboard.next = KeyCode.key_next
keyboard_constant Keyboard.next_favorite = KeyCode.key_next_favorite
keyboard_constant Keyboard.next_song = KeyCode.key_nextsong
keyboard_constant Keyboard.numeric0 = KeyCode.key_numeric_0
keyboard_constant Keyboard.numeric1 = KeyCode.key_numeric_1
keyboard_constant Keyboard.numeric11 = KeyCode.key_numeric_11
keyboard_constant Keyboard.numeric12 = KeyCode.key_numeric_12
keyboard_constant Keyboard.numeric2 = KeyCode.key_numeric_2
keyboard_constant Keyboard.numeric3 = KeyCode.key_numeric_3
keyboard_constant Keyboard.numeric4 = KeyCode.key_numeric_4
keyboard_constant Keyboard.numeric5 = KeyCode.key_numeric_5
keyboard_constant Keyboard.numeric6 = KeyCode.key_numeric_6
keyboard_constant Keyboard.numeric7 = KeyCode.key_numeric_7
keyboard_constant Keyboard.numeric8 = KeyCode.key_numeric_8
keyboard_constant Keyboard.numeric9 = KeyCode.key_numeric_9
keyboard_constant Keyboard.numeric_a = KeyCode.key_numeric_a
keyboard_constant Keyboard.numeric_b = KeyCode.key_numeric_b
keyboard_constant Keyboard.numeric_c = KeyCode.key_numeric_c
keyboard_constant Keyboard.numeric_d = KeyCode.key_numeric_d
keyboard_constant Keyboard.numeric_pound = KeyCode.key_numeric_pound
keyboard_constant Keyboard.numeric_star = KeyCode.key_numeric_star
keyboard_constant Keyboard.num_lock = KeyCode.key_numlock
keyboard_constant Keyboard.o = KeyCode.key_o
keyboard_constant Keyboard.ok = KeyCode.key_ok
keyboard_constant Keyboard.onscreen_keyboard = KeyCode.key_onscreen_keyboard
keyboard_constant Keyboard.open_key = KeyCode.key_open
keyboard_constant Keyboard.option = KeyCode.key_option
keyboard_constant Keyboard.p = KeyCode.key_p
keyboard_constant Keyboard.page_down = KeyCode.key_pagedown
keyboard_constant Keyboard.page_up = KeyCode.key_pageup
keyboard_constant Keyboard.paste = KeyCode.key_paste
keyboard_constant Keyboard.pause = KeyCode.key_pause
keyboard_constant Keyboard.pause_record = KeyCode.key_pause_record
keyboard_constant Keyboard.pause_cd = KeyCode.key_pausecd
keyboard_constant Keyboard.pc = KeyCode.key_pc
keyboard_constant Keyboard.phone = KeyCode.key_phone
keyboard_constant Keyboard.play = KeyCode.key_play
keyboard_constant Keyboard.play_cd = KeyCode.key_playcd
keyboard_constant Keyboard.player = KeyCode.key_player
keyboard_constant Keyboard.play_pause = KeyCode.key_playpause
keyboard_constant Keyboard.power = KeyCode.key_power
keyboard_constant Keyboard.power2 = KeyCode.key_power2
keyboard_constant Keyboard.presentation = KeyCode.key_presentation
keyboard_constant Keyboard.previous = KeyCode.key_previous
keyboard_constant Keyboard.previous_song = KeyCode.key_previoussong
keyboard_constant Keyboard.print = KeyCode.key_print
keyboard_constant Keyboard.privacy_screen_toggle = KeyCode.key_privacy_screen_toggle
keyboard_constant Keyboard.prog1 = KeyCode.key_prog1
keyboard_constant Keyboard.prog2 = KeyCode.key_prog2
keyboard_constant Keyboard.prog3 = KeyCode.key_prog3
keyboard_constant Keyboard.prog4 = KeyCode.key_prog4
keyboard_constant Keyboard.program = KeyCode.key_program
keyboard_constant Keyboard.props = KeyCode.key_props
keyboard_constant Keyboard.pvr = KeyCode.key_pvr
keyboard_constant Keyboard.q = KeyCode.key_q
keyboard_constant Keyboard.question = KeyCode.key_question
keyboard_constant Keyboard.r = KeyCode.key_r
keyboard_constant Keyboard.radio = KeyCode.key_radio
keyboard_constant Keyboard.record_key = KeyCode.key_record
keyboard_constant Keyboard.red = KeyCode.key_red
keyboard_constant Keyboard.redo = KeyCode.key_redo
keyboard_constant Keyboard.refresh = KeyCode.key_refresh
keyboard_constant Keyboard.reply = KeyCode.key_reply
keyboard_constant Keyboard.reserved = KeyCode.key_reserved
keyboard_constant Keyboard.restart = KeyCode.key_restart
keyboard_constant Keyboard.rewind = KeyCode.key_rewind
keyboard_constant Keyboard.rf_kill = KeyCode.key_rfkill
keyboard_constant Keyboard.right = KeyCode.key_right
keyboard_constant Keyboard.right_down = KeyCode.key_right_down
keyboard_constant Keyboard.right_up = KeyCode.key_right_up
keyboard_constant Keyboard.right_alt = KeyCode.key_rightalt
keyboard_constant Keyboard.right_brace = KeyCode.key_rightbrace
keyboard_constant Keyboard.right_ctrl = KeyCode.key_rightctrl
keyboard_constant Keyboard.right_meta = KeyCode.key_rightmeta
keyboard_constant Keyboard.right_shift = KeyCode.key_rightshift
keyboard_constant Keyboard.ro = KeyCode.key_ro
keyboard_constant Keyboard.root_menu = KeyCode.key_root_menu
keyboard_constant Keyboard.rotate_display = KeyCode.key_rotate_display
keyboard_constant Keyboard.rotate_lock_toggle = KeyCode.key_rotate_lock_toggle
keyboard_constant Keyboard.s = KeyCode.key_s
keyboard_constant Keyboard.sat = KeyCode.key_sat
keyboard_constant Keyboard.sat2 = KeyCode.key_sat2
keyboard_constant Keyboard.save = KeyCode.key_save
keyboard_constant Keyboard.scale = KeyCode.key_scale
keyboard_constant Keyboard.screensaver = KeyCode.key_screensaver
keyboard_constant Keyboard.scroll_down = KeyCode.key_scrolldown
keyboard_constant Keyboard.scroll_lock = KeyCode.key_scrolllock
keyboard_constant Keyboard.scroll_up = KeyCode.key_scrollup
keyboard_constant Keyboard.search_key = KeyCode.key_search
keyboard_constant Keyboard.select = KeyCode.key_select
keyboard_constant Keyboard.selective_screenshot = KeyCode.key_selective_screenshot
keyboard_constant Keyboard.semicolon = KeyCode.key_semicolon
keyboard_constant Keyboard.send = KeyCode.key_send
keyboard_constant Keyboard.send_file = KeyCode.key_sendfile
keyboard_constant Keyboard.setup = KeyCode.key_setup
keyboard_constant Keyboard.shop = KeyCode.key_shop
keyboard_constant Keyboard.shuffle = KeyCode.key_shuffle
keyboard_constant Keyboard.slash = KeyCode.key_slash
keyboard_constant Keyboard.sleep = KeyCode.key_sleep
keyboard_constant Keyboard.slow = KeyCode.key_slow
keyboard_constant Keyboard.slow_reverse = KeyCode.key_slowreverse
keyboard_constant Keyboard.sound = KeyCode.key_sound
keyboard_constant Keyboard.space = KeyCode.key_space
keyboard_constant Keyboard.spellcheck = KeyCode.key_spellcheck
keyboard_constant Keyboard.sport = KeyCode.key_sport
keyboard_constant Keyboard.spreadsheet = KeyCode.key_spreadsheet
keyboard_constant Keyboard.stop = KeyCode.key_stop
keyboard_constant Keyboard.stop_record = KeyCode.key_stop_record
keyboard_constant Keyboard.stop_cd = KeyCode.key_stopcd
keyboard_constant Keyboard.subtitle = KeyCode.key_subtitle
keyboard_constant Keyboard.suspend = KeyCode.key_suspend
keyboard_constant Keyboard.switch_video_mode = KeyCode.key_switchvideomode
keyboard_constant Keyboard.sys_rq = KeyCode.key_sysrq
keyboard_constant Keyboard.t = KeyCode.key_t
keyboard_constant Keyboard.tab = KeyCode.key_tab
keyboard_constant Keyboard.tape = KeyCode.key_tape
keyboard_constant Keyboard.task_manager = KeyCode.key_taskmanager
keyboard_constant Keyboard.teen = KeyCode.key_teen
keyboard_constant Keyboard.text = KeyCode.key_text
keyboard_constant Keyboard.time = KeyCode.key_time
keyboard_constant Keyboard.title = KeyCode.key_title
keyboard_constant Keyboard.touchpad_off = KeyCode.key_touchpad_off
keyboard_constant Keyboard.touchpad_on = KeyCode.key_touchpad_on
keyboard_constant Keyboard.touchpad_toggle = KeyCode.key_touchpad_toggle
keyboard_constant Keyboard.tuner = KeyCode.key_tuner
keyboard_constant Keyboard.tv = KeyCode.key_tv
keyboard_constant Keyboard.tv2 = KeyCode.key_tv2
keyboard_constant Keyboard.twen = KeyCode.key_twen
keyboard_constant Keyboard.u = KeyCode.key_u
keyboard_constant Keyboard.undo = KeyCode.key_undo
keyboard_constant Keyboard.unknown = KeyCode.key_unknown
keyboard_constant Keyboard.unmute = KeyCode.key_unmute
keyboard_constant Keyboard.up = KeyCode.key_up
keyboard_constant Keyboard.uwb = KeyCode.key_uwb
keyboard_constant Keyboard.v = KeyCode.key_v
keyboard_constant Keyboard.vcr = KeyCode.key_vcr
keyboard_constant Keyboard.vcr2 = KeyCode.key_vcr2
keyboard_constant Keyboard.vendor = KeyCode.key_vendor
keyboard_constant Keyboard.video = KeyCode.key_video
keyboard_constant Keyboard.video_next = KeyCode.key_video_next
keyboard_constant Keyboard.video_prev = KeyCode.key_video_prev
keyboard_constant Keyboard.video_phone = KeyCode.key_videophone
keyboard_constant Keyboard.vod = KeyCode.key_vod
keyboard_constant Keyboard.voice_command = KeyCode.key_voicecommand
keyboard_constant Keyboard.voice_mail = KeyCode.key_voicemail
keyboard_constant Keyboard.volume_down = KeyCode.key_volumedown
keyboard_constant Keyboard.volume_up = KeyCode.key_volumeup
keyboard_constant Keyboard.w = KeyCode.key_w
keyboard_constant Keyboard.wake_up = KeyCode.key_wakeup
keyboard_constant Keyboard.wlan = KeyCode.key_wlan
keyboard_constant Keyboard.word_processor = KeyCode.key_wordprocessor
keyboard_constant Keyboard.wps_button = KeyCode.key_wps_button
keyboard_constant Keyboard.wwan = KeyCode.key_wwan
keyboard_constant Keyboard.www = KeyCode.key_www
keyboard_constant Keyboard.x = KeyCode.key_x
keyboard_constant Keyboard.xfer = KeyCode.key_xfer
keyboard_constant Keyboard.y = KeyCode.key_y
keyboard_constant Keyboard.yellow = KeyCode.key_yellow
keyboard_constant Keyboard.yen = KeyCode.key_yen
keyboard_constant Keyboard.z = KeyCode.key_z
keyboard_constant Keyboard.zenkaku_hankaku = KeyCode.key_zenkakuhankaku
keyboard_constant Keyboard.zoom_in = KeyCode.key_zoomin
keyboard_constant Keyboard.zoom_out = KeyCode.key_zoomout
keyboard_constant Keyboard.zoom_reset = KeyCode.key_zoomreset

unfoldable pub button_constant : Button → BtnCode
button_constant Button.b0 = BtnCode.btn_0
button_constant Button.b1 = BtnCode.btn_1
button_constant Button.b2 = BtnCode.btn_2
button_constant Button.b3 = BtnCode.btn_3
button_constant Button.b4 = BtnCode.btn_4
button_constant Button.b5 = BtnCode.btn_5
button_constant Button.b6 = BtnCode.btn_6
button_constant Button.b7 = BtnCode.btn_7
button_constant Button.b8 = BtnCode.btn_8
button_constant Button.b9 = BtnCode.btn_9
button_constant Button.left = BtnCode.btn_left
button_constant Button.right = BtnCode.btn_right
button_constant Button.middle = BtnCode.btn_middle
button_constant Button.side = BtnCode.btn_side
button_constant Button.extra = BtnCode.btn_extra
button_constant Button.forward = BtnCode.btn_forward
button_constant Button.back = BtnCode.btn_back
button_constant Button.task = BtnCode.btn_task
button_constant Button.trigger = BtnCode.btn_trigger
button_constant Button.thumb = BtnCode.btn_thumb
button_constant Button.thumb2 = BtnCode.btn_thumb2
button_constant Button.top = BtnCode.btn_top
button_constant Button.top2 = BtnCode.btn_top2
button_constant Button.pinkie = BtnCode.btn_pinkie
button_constant Button.base = BtnCode.btn_base
button_constant Button.base2 = BtnCode.btn_base2
button_constant Button.base3 = BtnCode.btn_base3
button_constant Button.base4 = BtnCode.btn_base4
button_constant Button.base5 = BtnCode.btn_base5
button_constant Button.base6 = BtnCode.btn_base6
button_constant Button.dead = BtnCode.btn_dead
button_constant Button.south = BtnCode.btn_south
button_constant Button.east = BtnCode.btn_east
button_constant Button.c = BtnCode.btn_c
button_constant Button.north = BtnCode.btn_north
button_constant Button.west = BtnCode.btn_west
button_constant Button.z = BtnCode.btn_z
button_constant Button.tl = BtnCode.btn_tl
button_constant Button.tr = BtnCode.btn_tr
button_constant Button.tl2 = BtnCode.btn_tl2
button_constant Button.tr2 = BtnCode.btn_tr2
button_constant Button.select = BtnCode.btn_select
button_constant Button.start = BtnCode.btn_start
button_constant Button.mode = BtnCode.btn_mode
button_constant Button.thumb_l = BtnCode.btn_thumbl
button_constant Button.thumb_r = BtnCode.btn_thumbr
button_constant Button.tool_pen = BtnCode.btn_tool_pen
button_constant Button.tool_rubber = BtnCode.btn_tool_rubber
button_constant Button.tool_brush = BtnCode.btn_tool_brush
button_constant Button.tool_pencil = BtnCode.btn_tool_pencil
button_constant Button.tool_airbrush = BtnCode.btn_tool_airbrush
button_constant Button.tool_finger = BtnCode.btn_tool_finger
button_constant Button.tool_mouse = BtnCode.btn_tool_mouse
button_constant Button.tool_lens = BtnCode.btn_tool_lens
button_constant Button.quint_tap = BtnCode.btn_tool_quinttap
button_constant Button.stylus3 = BtnCode.btn_stylus3
button_constant Button.touch = BtnCode.btn_touch
button_constant Button.stylus = BtnCode.btn_stylus
button_constant Button.stylus2 = BtnCode.btn_stylus2
button_constant Button.double_tap = BtnCode.btn_tool_doubletap
button_constant Button.triple_tap = BtnCode.btn_tool_tripletap
button_constant Button.quad_tap = BtnCode.btn_tool_quadtap
button_constant Button.gear_down = BtnCode.btn_gear_down
button_constant Button.gear_up = BtnCode.btn_gear_up
button_constant Button.dpad_up = BtnCode.btn_dpad_up
button_constant Button.dpad_down = BtnCode.btn_dpad_down
button_constant Button.dpad_left = BtnCode.btn_dpad_left
button_constant Button.dpad_right = BtnCode.btn_dpad_right
button_constant Button.trigger_happy1 = BtnCode.btn_trigger_happy1
button_constant Button.triger_happy2 = BtnCode.btn_trigger_happy2
button_constant Button.trigger_happy3 = BtnCode.btn_trigger_happy3
button_constant Button.trigger_happy4 = BtnCode.btn_trigger_happy4
button_constant Button.trigger_happy5 = BtnCode.btn_trigger_happy5
button_constant Button.trigger_happy6 = BtnCode.btn_trigger_happy6
button_constant Button.trigger_happy7 = BtnCode.btn_trigger_happy7
button_constant Button.trigger_happy8 = BtnCode.btn_trigger_happy8
button_constant Button.trigger_happy9 = BtnCode.btn_trigger_happy9
button_constant Button.trigger_happy10 = BtnCode.btn_trigger_happy10
button_constant Button.trigger_happy11 = BtnCode.btn_trigger_happy11
button_constant Button.trigger_happy12 = BtnCode.btn_trigger_happy12
button_constant Button.trigger_happy13 = BtnCode.btn_trigger_happy13
button_constant Button.trigger_happy14 = BtnCode.btn_trigger_happy14
button_constant Button.trigger_happy15 = BtnCode.btn_trigger_happy15
button_constant Button.trigger_happy16 = BtnCode.btn_trigger_happy16
button_constant Button.trigger_happy17 = BtnCode.btn_trigger_happy17
button_constant Button.trigger_happy18 = BtnCode.btn_trigger_happy18
button_constant Button.trigger_happy19 = BtnCode.btn_trigger_happy19
button_constant Button.trigger_happy20 = BtnCode.btn_trigger_happy20
button_constant Button.trigger_happy21 = BtnCode.btn_trigger_happy21
button_constant Button.trigger_happy22 = BtnCode.btn_trigger_happy22
button_constant Button.trigger_happy23 = BtnCode.btn_trigger_happy23
button_constant Button.trigger_happy24 = BtnCode.btn_trigger_happy24
button_constant Button.trigger_happy25 = BtnCode.btn_trigger_happy25
button_constant Button.trigger_happy26 = BtnCode.btn_trigger_happy26
button_constant Button.trigger_happy27 = BtnCode.btn_trigger_happy27
button_constant Button.trigger_happy28 = BtnCode.btn_trigger_happy28
button_constant Button.trigger_happy29 = BtnCode.btn_trigger_happy29
button_constant Button.trigger_happy30 = BtnCode.btn_trigger_happy30
button_constant Button.trigger_happy31 = BtnCode.btn_trigger_happy31
button_constant Button.trigger_happy32 = BtnCode.btn_trigger_happy32
button_constant Button.trigger_happy33 = BtnCode.btn_trigger_happy33
button_constant Button.trigger_happy34 = BtnCode.btn_trigger_happy34
button_constant Button.trigger_happy35 = BtnCode.btn_trigger_happy35
button_constant Button.trigger_happy36 = BtnCode.btn_trigger_happy36
button_constant Button.trigger_happy37 = BtnCode.btn_trigger_happy37
button_constant Button.trigger_happy38 = BtnCode.btn_trigger_happy38
button_constant Button.trigger_happy39 = BtnCode.btn_trigger_happy39
button_constant Button.trigger_happy40 = BtnCode.btn_trigger_happy40
