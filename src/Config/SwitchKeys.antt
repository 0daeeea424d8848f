-- ===== src/Config/SwitchKeys.antt =====
-- rkvm-server/src/config.rs: the enum `SwitchKey`, whose variants are the names of keys in the
-- configuration, and its conversion into `Key`, one arm for each variant.
use rkvm.Prelude.{Eq}
use rkvm.Input.Key.{Key, key, button}
use rkvm.Input.Key.Keys.{Keyboard}
use rkvm.Input.Key.Buttons.{Button}

pub data SwitchKey : Type 0 where
  a ab address_book again als_toggle alt_erase angle apostrophe appselect archive aspect_ratio
        assistant attendant_off attendant_on attendant_toggle audio audio_desc aux b back backslash
        backspace bass_boost battery blue bluetooth bookmarks break brightness_auto brightness_cycle
        brightness_max brightness_min brightness_toggle brightness_down brightness_up brl_dot1
        brl_dot10 brl_dot2 brl_dot3 brl_dot4 brl_dot5 brl_dot6 brl_dot7 brl_dot8 brl_dot9
        button_config c calc calendar camera camera_down camera_focus camera_left camera_right
        camera_up camera_zoom_in camera_zoom_out cancel caps_lock cd channel channel_down channel_up
        chat clear close close_cd coffee comma compose computer config connect context_menu
        controlpanel copy cut cycle_windows d dashboard data_key database del_eol del_eos del_line
        delete delete_file digits directory display_off display_toggle documents dollar dot down dvd
        e edit editor eject_cd eject_close_cd email end enter epg equal esc euro exit f f1 f10 f11
        f12 f13 f14 f15 f16 f17 f18 f19 f2 f20 f21 f22 f23 f24 f3 f4 f5 f6 f7 f8 f9 fast_forward
        fast_reverse favorites file finance find first fn fn1 fn2 fn_b fn_d fn_e fn_esc fn_f fn_f1
        fn_f10 fn_f11 fn_f12 fn_f2 fn_f3 fn_f4 fn_f5 fn_f6 fn_f7 fn_f8 fn_f9 fn_s forward
        forward_mail frameback frame_forward front full_screen g games goto graphics_editor grave
        green h hangeul hanja help henkan hiragana home homepage hp i images info ins_line insert
        iso j journal k katakana katakana_hiragana kbd_layout_next kbd_lcd_menu1 kbd_lcd_menu2
        kbd_lcd_menu3 kbd_lcd_menu4 kbd_lcd_menu5 kbd_illum_down kbd_illum_toggle kbd_illum_up
        kbd_input_assist_accept kbd_input_assist_cancel kbd_input_assist_next
        kbd_input_assist_nextgroup kbd_input_assist_prev kbd_input_assist_prevgroup keyboard kp0 kp1
        kp2 kp3 kp4 kp5 kp6 kp7 kp8 kp9 kp_asterisk kp_comma kp_dott kp_enter kp_equal kp_jp_comma
        kp_left_paren kp_minus kp_plus kp_plus_minus kp_right_paren kp_slash l language last left
        left_down left_up left_alt left_brace left_ctrl left_meta left_shift lights_toggle line_feed
        list log_off m macro macro1 macro10 macro11 macro12 macro13 macro14 macro15 macro16 macro17
        macro18 macro19 macro2 macro20 macro21 macro22 macro23 macro24 macro25 macro26 macro27
        macro28 macro29 macro3 macro30 macro4 macro5 macro6 macro7 macro8 macro9 macro_preset1
        macro_preset2 macro_preset3 macro_preset_cycle macro_record_start macro_record_stop mail
        media media_repeat media_top_menu memo menu messenger mhp mic_mute minus mode move mp3
        ms_dos muhenkan mute n n0 n1 n102nd n10_channels_down n10_channels_up n2 n3 n3d_mode n4 n5
        n6 n7 n8 n9 new news next next_favorite next_song numeric0 numeric1 numeric11 numeric12
        numeric2 numeric3 numeric4 numeric5 numeric6 numeric7 numeric8 numeric9 numeric_a numeric_b
        numeric_c numeric_d numeric_pound numeric_star num_lock o ok onscreen_keyboard open_key
        option p page_down page_up paste pause pause_record pause_cd pc phone play play_cd player
        play_pause power power2 presentation previous previous_song print privacy_screen_toggle
        prog1 prog2 prog3 prog4 program props pvr q question r radio record_key red redo refresh
        reply reserved restart rewind rf_kill right right_down right_up right_alt right_brace
        right_ctrl right_meta right_shift ro root_menu rotate_display rotate_lock_toggle s sat sat2
        save scale screensaver scroll_down scroll_lock scroll_up search_key select
        selective_screenshot semicolon send send_file setup shop shuffle slash sleep slow
        slow_reverse sound space spellcheck sport spreadsheet stop stop_record stop_cd subtitle
        suspend switch_video_mode sys_rq t tab tape task_manager teen text time title touchpad_off
        touchpad_on touchpad_toggle tuner tv tv2 twen u undo unknown unmute up uwb v vcr vcr2 vendor
        video video_next video_prev video_phone vod voice_command voice_mail volume_down volume_up w
        wake_up wlan word_processor wps_button wwan www x xfer y yellow yen z zenkaku_hankaku
        zoom_in zoom_out zoom_reset b0 b1 b2 b3 b4 b5 b6 b7 b8 b9 b_left b_right middle side extra
        b_forward b_back task trigger thumb thumb2 top top2 pinkie base base2 base3 base4 base5
        base6 dead south east b_c north west b_z tl tr tl2 tr2 b_select start b_mode thumb_l thumb_r
        tool_pen tool_rubber tool_brush tool_pencil tool_airbrush tool_finger tool_mouse tool_lens
        quint_tap stylus3 touch stylus stylus2 double_tap triple_tap quad_tap gear_down gear_up
        dpad_up dpad_down dpad_left dpad_right trigger_happy1 triger_happy2 trigger_happy3
        trigger_happy4 trigger_happy5 trigger_happy6 trigger_happy7 trigger_happy8 trigger_happy9
        trigger_happy10 trigger_happy11 trigger_happy12 trigger_happy13 trigger_happy14
        trigger_happy15 trigger_happy16 trigger_happy17 trigger_happy18 trigger_happy19
        trigger_happy20 trigger_happy21 trigger_happy22 trigger_happy23 trigger_happy24
        trigger_happy25 trigger_happy26 trigger_happy27 trigger_happy28 trigger_happy29
        trigger_happy30 trigger_happy31 trigger_happy32 trigger_happy33 trigger_happy34
        trigger_happy35 trigger_happy36 trigger_happy37 trigger_happy38 trigger_happy39
        trigger_happy40 :
      SwitchKey

unfoldable pub SwitchKey-discrete : Discrete SwitchKey
SwitchKey-discrete = hlevel

instance abbrev pub SwitchKey_eq : Eq SwitchKey
SwitchKey_eq = record { dec = SwitchKey-discrete }

-- `Into<Key>`
unfoldable pub into_key : SwitchKey → Key
into_key SwitchKey.a = key Keyboard.a
into_key SwitchKey.ab = key Keyboard.ab
into_key SwitchKey.address_book = key Keyboard.address_book
into_key SwitchKey.again = key Keyboard.again
into_key SwitchKey.als_toggle = key Keyboard.als_toggle
into_key SwitchKey.alt_erase = key Keyboard.alt_erase
into_key SwitchKey.angle = key Keyboard.angle
into_key SwitchKey.apostrophe = key Keyboard.apostrophe
into_key SwitchKey.appselect = key Keyboard.appselect
into_key SwitchKey.archive = key Keyboard.archive
into_key SwitchKey.aspect_ratio = key Keyboard.aspect_ratio
into_key SwitchKey.assistant = key Keyboard.assistant
into_key SwitchKey.attendant_off = key Keyboard.attendant_off
into_key SwitchKey.attendant_on = key Keyboard.attendant_on
into_key SwitchKey.attendant_toggle = key Keyboard.attendant_toggle
into_key SwitchKey.audio = key Keyboard.audio
into_key SwitchKey.audio_desc = key Keyboard.audio_desc
into_key SwitchKey.aux = key Keyboard.aux
into_key SwitchKey.b = key Keyboard.b
into_key SwitchKey.back = key Keyboard.back
into_key SwitchKey.backslash = key Keyboard.backslash
into_key SwitchKey.backspace = key Keyboard.backspace
into_key SwitchKey.bass_boost = key Keyboard.bass_boost
into_key SwitchKey.battery = key Keyboard.battery
into_key SwitchKey.blue = key Keyboard.blue
into_key SwitchKey.bluetooth = key Keyboard.bluetooth
into_key SwitchKey.bookmarks = key Keyboard.bookmarks
into_key SwitchKey.break = key Keyboard.break
into_key SwitchKey.brightness_auto = key Keyboard.brightness_auto
into_key SwitchKey.brightness_cycle = key Keyboard.brightness_cycle
into_key SwitchKey.brightness_max = key Keyboard.brightness_max
into_key SwitchKey.brightness_min = key Keyboard.brightness_min
into_key SwitchKey.brightness_toggle = key Keyboard.brightness_toggle
into_key SwitchKey.brightness_down = key Keyboard.brightness_down
into_key SwitchKey.brightness_up = key Keyboard.brightness_up
into_key SwitchKey.brl_dot1 = key Keyboard.brl_dot1
into_key SwitchKey.brl_dot10 = key Keyboard.brl_dot10
into_key SwitchKey.brl_dot2 = key Keyboard.brl_dot2
into_key SwitchKey.brl_dot3 = key Keyboard.brl_dot3
into_key SwitchKey.brl_dot4 = key Keyboard.brl_dot4
into_key SwitchKey.brl_dot5 = key Keyboard.brl_dot5
into_key SwitchKey.brl_dot6 = key Keyboard.brl_dot6
into_key SwitchKey.brl_dot7 = key Keyboard.brl_dot7
into_key SwitchKey.brl_dot8 = key Keyboard.brl_dot8
into_key SwitchKey.brl_dot9 = key Keyboard.brl_dot9
into_key SwitchKey.button_config = key Keyboard.button_config
into_key SwitchKey.c = key Keyboard.c
into_key SwitchKey.calc = key Keyboard.calc
into_key SwitchKey.calendar = key Keyboard.calendar
into_key SwitchKey.camera = key Keyboard.camera
into_key SwitchKey.camera_down = key Keyboard.camera_down
into_key SwitchKey.camera_focus = key Keyboard.camera_focus
into_key SwitchKey.camera_left = key Keyboard.camera_left
into_key SwitchKey.camera_right = key Keyboard.camera_right
into_key SwitchKey.camera_up = key Keyboard.camera_up
into_key SwitchKey.camera_zoom_in = key Keyboard.camera_zoom_in
into_key SwitchKey.camera_zoom_out = key Keyboard.camera_zoom_out
into_key SwitchKey.cancel = key Keyboard.cancel
into_key SwitchKey.caps_lock = key Keyboard.caps_lock
into_key SwitchKey.cd = key Keyboard.cd
into_key SwitchKey.channel = key Keyboard.channel
into_key SwitchKey.channel_down = key Keyboard.channel_down
into_key SwitchKey.channel_up = key Keyboard.channel_up
into_key SwitchKey.chat = key Keyboard.chat
into_key SwitchKey.clear = key Keyboard.clear
into_key SwitchKey.close = key Keyboard.close
into_key SwitchKey.close_cd = key Keyboard.close_cd
into_key SwitchKey.coffee = key Keyboard.coffee
into_key SwitchKey.comma = key Keyboard.comma
into_key SwitchKey.compose = key Keyboard.compose
into_key SwitchKey.computer = key Keyboard.computer
into_key SwitchKey.config = key Keyboard.config
into_key SwitchKey.connect = key Keyboard.connect
into_key SwitchKey.context_menu = key Keyboard.context_menu
into_key SwitchKey.controlpanel = key Keyboard.controlpanel
into_key SwitchKey.copy = key Keyboard.copy
into_key SwitchKey.cut = key Keyboard.cut
into_key SwitchKey.cycle_windows = key Keyboard.cycle_windows
into_key SwitchKey.d = key Keyboard.d
into_key SwitchKey.dashboard = key Keyboard.dashboard
into_key SwitchKey.data_key = key Keyboard.data_key
into_key SwitchKey.database = key Keyboard.database
into_key SwitchKey.del_eol = key Keyboard.del_eol
into_key SwitchKey.del_eos = key Keyboard.del_eos
into_key SwitchKey.del_line = key Keyboard.del_line
into_key SwitchKey.delete = key Keyboard.delete
into_key SwitchKey.delete_file = key Keyboard.delete_file
into_key SwitchKey.digits = key Keyboard.digits
into_key SwitchKey.directory = key Keyboard.directory
into_key SwitchKey.display_off = key Keyboard.display_off
into_key SwitchKey.display_toggle = key Keyboard.display_toggle
into_key SwitchKey.documents = key Keyboard.documents
into_key SwitchKey.dollar = key Keyboard.dollar
into_key SwitchKey.dot = key Keyboard.dot
into_key SwitchKey.down = key Keyboard.down
into_key SwitchKey.dvd = key Keyboard.dvd
into_key SwitchKey.e = key Keyboard.e
into_key SwitchKey.edit = key Keyboard.edit
into_key SwitchKey.editor = key Keyboard.editor
into_key SwitchKey.eject_cd = key Keyboard.eject_cd
into_key SwitchKey.eject_close_cd = key Keyboard.eject_close_cd
into_key SwitchKey.email = key Keyboard.email
into_key SwitchKey.end = key Keyboard.end
into_key SwitchKey.enter = key Keyboard.enter
into_key SwitchKey.epg = key Keyboard.epg
into_key SwitchKey.equal = key Keyboard.equal
into_key SwitchKey.esc = key Keyboard.esc
into_key SwitchKey.euro = key Keyboard.euro
into_key SwitchKey.exit = key Keyboard.exit
into_key SwitchKey.f = key Keyboard.f
into_key SwitchKey.f1 = key Keyboard.f1
into_key SwitchKey.f10 = key Keyboard.f10
into_key SwitchKey.f11 = key Keyboard.f11
into_key SwitchKey.f12 = key Keyboard.f12
into_key SwitchKey.f13 = key Keyboard.f13
into_key SwitchKey.f14 = key Keyboard.f14
into_key SwitchKey.f15 = key Keyboard.f15
into_key SwitchKey.f16 = key Keyboard.f16
into_key SwitchKey.f17 = key Keyboard.f17
into_key SwitchKey.f18 = key Keyboard.f18
into_key SwitchKey.f19 = key Keyboard.f19
into_key SwitchKey.f2 = key Keyboard.f2
into_key SwitchKey.f20 = key Keyboard.f20
into_key SwitchKey.f21 = key Keyboard.f21
into_key SwitchKey.f22 = key Keyboard.f22
into_key SwitchKey.f23 = key Keyboard.f23
into_key SwitchKey.f24 = key Keyboard.f24
into_key SwitchKey.f3 = key Keyboard.f3
into_key SwitchKey.f4 = key Keyboard.f4
into_key SwitchKey.f5 = key Keyboard.f5
into_key SwitchKey.f6 = key Keyboard.f6
into_key SwitchKey.f7 = key Keyboard.f7
into_key SwitchKey.f8 = key Keyboard.f8
into_key SwitchKey.f9 = key Keyboard.f9
into_key SwitchKey.fast_forward = key Keyboard.fast_forward
into_key SwitchKey.fast_reverse = key Keyboard.fast_reverse
into_key SwitchKey.favorites = key Keyboard.favorites
into_key SwitchKey.file = key Keyboard.file
into_key SwitchKey.finance = key Keyboard.finance
into_key SwitchKey.find = key Keyboard.find
into_key SwitchKey.first = key Keyboard.first
into_key SwitchKey.fn = key Keyboard.fn
into_key SwitchKey.fn1 = key Keyboard.fn1
into_key SwitchKey.fn2 = key Keyboard.fn2
into_key SwitchKey.fn_b = key Keyboard.fn_b
into_key SwitchKey.fn_d = key Keyboard.fn_d
into_key SwitchKey.fn_e = key Keyboard.fn_e
into_key SwitchKey.fn_esc = key Keyboard.fn_esc
into_key SwitchKey.fn_f = key Keyboard.fn_f
into_key SwitchKey.fn_f1 = key Keyboard.fn_f1
into_key SwitchKey.fn_f10 = key Keyboard.fn_f10
into_key SwitchKey.fn_f11 = key Keyboard.fn_f11
into_key SwitchKey.fn_f12 = key Keyboard.fn_f12
into_key SwitchKey.fn_f2 = key Keyboard.fn_f2
into_key SwitchKey.fn_f3 = key Keyboard.fn_f3
into_key SwitchKey.fn_f4 = key Keyboard.fn_f4
into_key SwitchKey.fn_f5 = key Keyboard.fn_f5
into_key SwitchKey.fn_f6 = key Keyboard.fn_f6
into_key SwitchKey.fn_f7 = key Keyboard.fn_f7
into_key SwitchKey.fn_f8 = key Keyboard.fn_f8
into_key SwitchKey.fn_f9 = key Keyboard.fn_f9
into_key SwitchKey.fn_s = key Keyboard.fn_s
into_key SwitchKey.forward = key Keyboard.forward
into_key SwitchKey.forward_mail = key Keyboard.forward_mail
into_key SwitchKey.frameback = key Keyboard.frameback
into_key SwitchKey.frame_forward = key Keyboard.frame_forward
into_key SwitchKey.front = key Keyboard.front
into_key SwitchKey.full_screen = key Keyboard.full_screen
into_key SwitchKey.g = key Keyboard.g
into_key SwitchKey.games = key Keyboard.games
into_key SwitchKey.goto = key Keyboard.goto
into_key SwitchKey.graphics_editor = key Keyboard.graphics_editor
into_key SwitchKey.grave = key Keyboard.grave
into_key SwitchKey.green = key Keyboard.green
into_key SwitchKey.h = key Keyboard.h
into_key SwitchKey.hangeul = key Keyboard.hangeul
into_key SwitchKey.hanja = key Keyboard.hanja
into_key SwitchKey.help = key Keyboard.help
into_key SwitchKey.henkan = key Keyboard.henkan
into_key SwitchKey.hiragana = key Keyboard.hiragana
into_key SwitchKey.home = key Keyboard.home
into_key SwitchKey.homepage = key Keyboard.homepage
into_key SwitchKey.hp = key Keyboard.hp
into_key SwitchKey.i = key Keyboard.i
into_key SwitchKey.images = key Keyboard.images
into_key SwitchKey.info = key Keyboard.info
into_key SwitchKey.ins_line = key Keyboard.ins_line
into_key SwitchKey.insert = key Keyboard.insert
into_key SwitchKey.iso = key Keyboard.iso
into_key SwitchKey.j = key Keyboard.j
into_key SwitchKey.journal = key Keyboard.journal
into_key SwitchKey.k = key Keyboard.k
into_key SwitchKey.katakana = key Keyboard.katakana
into_key SwitchKey.katakana_hiragana = key Keyboard.katakana_hiragana
into_key SwitchKey.kbd_layout_next = key Keyboard.kbd_layout_next
into_key SwitchKey.kbd_lcd_menu1 = key Keyboard.kbd_lcd_menu1
into_key SwitchKey.kbd_lcd_menu2 = key Keyboard.kbd_lcd_menu2
into_key SwitchKey.kbd_lcd_menu3 = key Keyboard.kbd_lcd_menu3
into_key SwitchKey.kbd_lcd_menu4 = key Keyboard.kbd_lcd_menu4
into_key SwitchKey.kbd_lcd_menu5 = key Keyboard.kbd_lcd_menu5
into_key SwitchKey.kbd_illum_down = key Keyboard.kbd_illum_down
into_key SwitchKey.kbd_illum_toggle = key Keyboard.kbd_illum_toggle
into_key SwitchKey.kbd_illum_up = key Keyboard.kbd_illum_up
into_key SwitchKey.kbd_input_assist_accept = key Keyboard.kbd_input_assist_accept
into_key SwitchKey.kbd_input_assist_cancel = key Keyboard.kbd_input_assist_cancel
into_key SwitchKey.kbd_input_assist_next = key Keyboard.kbd_input_assist_next
into_key SwitchKey.kbd_input_assist_nextgroup = key Keyboard.kbd_input_assist_nextgroup
into_key SwitchKey.kbd_input_assist_prev = key Keyboard.kbd_input_assist_prev
into_key SwitchKey.kbd_input_assist_prevgroup = key Keyboard.kbd_input_assist_prevgroup
into_key SwitchKey.keyboard = key Keyboard.keyboard
into_key SwitchKey.kp0 = key Keyboard.kp0
into_key SwitchKey.kp1 = key Keyboard.kp1
into_key SwitchKey.kp2 = key Keyboard.kp2
into_key SwitchKey.kp3 = key Keyboard.kp3
into_key SwitchKey.kp4 = key Keyboard.kp4
into_key SwitchKey.kp5 = key Keyboard.kp5
into_key SwitchKey.kp6 = key Keyboard.kp6
into_key SwitchKey.kp7 = key Keyboard.kp7
into_key SwitchKey.kp8 = key Keyboard.kp8
into_key SwitchKey.kp9 = key Keyboard.kp9
into_key SwitchKey.kp_asterisk = key Keyboard.kp_asterisk
into_key SwitchKey.kp_comma = key Keyboard.kp_comma
into_key SwitchKey.kp_dott = key Keyboard.kp_dot
into_key SwitchKey.kp_enter = key Keyboard.kp_enter
into_key SwitchKey.kp_equal = key Keyboard.kp_equal
into_key SwitchKey.kp_jp_comma = key Keyboard.kp_jp_comma
into_key SwitchKey.kp_left_paren = key Keyboard.kp_left_paren
into_key SwitchKey.kp_minus = key Keyboard.kp_minus
into_key SwitchKey.kp_plus = key Keyboard.kp_plus
into_key SwitchKey.kp_plus_minus = key Keyboard.kp_plus_minus
into_key SwitchKey.kp_right_paren = key Keyboard.kp_right_paren
into_key SwitchKey.kp_slash = key Keyboard.kp_slash
into_key SwitchKey.l = key Keyboard.l
into_key SwitchKey.language = key Keyboard.language
into_key SwitchKey.last = key Keyboard.last
into_key SwitchKey.left = key Keyboard.left
into_key SwitchKey.left_down = key Keyboard.left_down
into_key SwitchKey.left_up = key Keyboard.left_up
into_key SwitchKey.left_alt = key Keyboard.left_alt
into_key SwitchKey.left_brace = key Keyboard.left_brace
into_key SwitchKey.left_ctrl = key Keyboard.left_ctrl
into_key SwitchKey.left_meta = key Keyboard.left_meta
into_key SwitchKey.left_shift = key Keyboard.left_shift
into_key SwitchKey.lights_toggle = key Keyboard.lights_toggle
into_key SwitchKey.line_feed = key Keyboard.line_feed
into_key SwitchKey.list = key Keyboard.list
into_key SwitchKey.log_off = key Keyboard.log_off
into_key SwitchKey.m = key Keyboard.m
into_key SwitchKey.macro = key Keyboard.macro
into_key SwitchKey.macro1 = key Keyboard.macro1
into_key SwitchKey.macro10 = key Keyboard.macro10
into_key SwitchKey.macro11 = key Keyboard.macro11
into_key SwitchKey.macro12 = key Keyboard.macro12
into_key SwitchKey.macro13 = key Keyboard.macro13
into_key SwitchKey.macro14 = key Keyboard.macro14
into_key SwitchKey.macro15 = key Keyboard.macro15
into_key SwitchKey.macro16 = key Keyboard.macro16
into_key SwitchKey.macro17 = key Keyboard.macro17
into_key SwitchKey.macro18 = key Keyboard.macro18
into_key SwitchKey.macro19 = key Keyboard.macro19
into_key SwitchKey.macro2 = key Keyboard.macro2
into_key SwitchKey.macro20 = key Keyboard.macro20
into_key SwitchKey.macro21 = key Keyboard.macro21
into_key SwitchKey.macro22 = key Keyboard.macro22
into_key SwitchKey.macro23 = key Keyboard.macro23
into_key SwitchKey.macro24 = key Keyboard.macro24
into_key SwitchKey.macro25 = key Keyboard.macro25
into_key SwitchKey.macro26 = key Keyboard.macro26
into_key SwitchKey.macro27 = key Keyboard.macro27
into_key SwitchKey.macro28 = key Keyboard.macro28
into_key SwitchKey.macro29 = key Keyboard.macro29
into_key SwitchKey.macro3 = key Keyboard.macro3
into_key SwitchKey.macro30 = key Keyboard.macro30
into_key SwitchKey.macro4 = key Keyboard.macro4
into_key SwitchKey.macro5 = key Keyboard.macro5
into_key SwitchKey.macro6 = key Keyboard.macro6
into_key SwitchKey.macro7 = key Keyboard.macro7
into_key SwitchKey.macro8 = key Keyboard.macro8
into_key SwitchKey.macro9 = key Keyboard.macro9
into_key SwitchKey.macro_preset1 = key Keyboard.macro_preset1
into_key SwitchKey.macro_preset2 = key Keyboard.macro_preset2
into_key SwitchKey.macro_preset3 = key Keyboard.macro_preset3
into_key SwitchKey.macro_preset_cycle = key Keyboard.macro_preset_cycle
into_key SwitchKey.macro_record_start = key Keyboard.macro_record_start
into_key SwitchKey.macro_record_stop = key Keyboard.macro_record_stop
into_key SwitchKey.mail = key Keyboard.mail
into_key SwitchKey.media = key Keyboard.media
into_key SwitchKey.media_repeat = key Keyboard.media_repeat
into_key SwitchKey.media_top_menu = key Keyboard.media_top_menu
into_key SwitchKey.memo = key Keyboard.memo
into_key SwitchKey.menu = key Keyboard.menu
into_key SwitchKey.messenger = key Keyboard.messenger
into_key SwitchKey.mhp = key Keyboard.mhp
into_key SwitchKey.mic_mute = key Keyboard.mic_mute
into_key SwitchKey.minus = key Keyboard.minus
into_key SwitchKey.mode = key Keyboard.mode
into_key SwitchKey.move = key Keyboard.move
into_key SwitchKey.mp3 = key Keyboard.mp3
into_key SwitchKey.ms_dos = key Keyboard.ms_dos
into_key SwitchKey.muhenkan = key Keyboard.muhenkan
into_key SwitchKey.mute = key Keyboard.mute
into_key SwitchKey.n = key Keyboard.n
into_key SwitchKey.n0 = key Keyboard.n0
into_key SwitchKey.n1 = key Keyboard.n1
into_key SwitchKey.n102nd = key Keyboard.n102nd
into_key SwitchKey.n10_channels_down = key Keyboard.n10_channels_down
into_key SwitchKey.n10_channels_up = key Keyboard.n10_channels_up
into_key SwitchKey.n2 = key Keyboard.n2
into_key SwitchKey.n3 = key Keyboard.n3
into_key SwitchKey.n3d_mode = key Keyboard.n3d_mode
into_key SwitchKey.n4 = key Keyboard.n4
into_key SwitchKey.n5 = key Keyboard.n5
into_key SwitchKey.n6 = key Keyboard.n6
into_key SwitchKey.n7 = key Keyboard.n7
into_key SwitchKey.n8 = key Keyboard.n8
into_key SwitchKey.n9 = key Keyboard.n9
into_key SwitchKey.new = key Keyboard.new
into_key SwitchKey.news = key Keyboard.news
into_key SwitchKey.next = key Keyboard.next
into_key SwitchKey.next_favorite = key Keyboard.next_favorite
into_key SwitchKey.next_song = key Keyboard.next_song
into_key SwitchKey.numeric0 = key Keyboard.numeric0
into_key SwitchKey.numeric1 = key Keyboard.numeric1
into_key SwitchKey.numeric11 = key Keyboard.numeric11
into_key SwitchKey.numeric12 = key Keyboard.numeric12
into_key SwitchKey.numeric2 = key Keyboard.numeric2
into_key SwitchKey.numeric3 = key Keyboard.numeric3
into_key SwitchKey.numeric4 = key Keyboard.numeric4
into_key SwitchKey.numeric5 = key Keyboard.numeric5
into_key SwitchKey.numeric6 = key Keyboard.numeric6
into_key SwitchKey.numeric7 = key Keyboard.numeric7
into_key SwitchKey.numeric8 = key Keyboard.numeric8
into_key SwitchKey.numeric9 = key Keyboard.numeric9
into_key SwitchKey.numeric_a = key Keyboard.numeric_a
into_key SwitchKey.numeric_b = key Keyboard.numeric_b
into_key SwitchKey.numeric_c = key Keyboard.numeric_c
into_key SwitchKey.numeric_d = key Keyboard.numeric_d
into_key SwitchKey.numeric_pound = key Keyboard.numeric_pound
into_key SwitchKey.numeric_star = key Keyboard.numeric_star
into_key SwitchKey.num_lock = key Keyboard.num_lock
into_key SwitchKey.o = key Keyboard.o
into_key SwitchKey.ok = key Keyboard.ok
into_key SwitchKey.onscreen_keyboard = key Keyboard.onscreen_keyboard
into_key SwitchKey.open_key = key Keyboard.open_key
into_key SwitchKey.option = key Keyboard.option
into_key SwitchKey.p = key Keyboard.p
into_key SwitchKey.page_down = key Keyboard.page_down
into_key SwitchKey.page_up = key Keyboard.page_up
into_key SwitchKey.paste = key Keyboard.paste
into_key SwitchKey.pause = key Keyboard.pause
into_key SwitchKey.pause_record = key Keyboard.pause_record
into_key SwitchKey.pause_cd = key Keyboard.pause_cd
into_key SwitchKey.pc = key Keyboard.pc
into_key SwitchKey.phone = key Keyboard.phone
into_key SwitchKey.play = key Keyboard.play
into_key SwitchKey.play_cd = key Keyboard.play_cd
into_key SwitchKey.player = key Keyboard.player
into_key SwitchKey.play_pause = key Keyboard.play_pause
into_key SwitchKey.power = key Keyboard.power
into_key SwitchKey.power2 = key Keyboard.power2
into_key SwitchKey.presentation = key Keyboard.presentation
into_key SwitchKey.previous = key Keyboard.previous
into_key SwitchKey.previous_song = key Keyboard.previous_song
into_key SwitchKey.print = key Keyboard.print
into_key SwitchKey.privacy_screen_toggle = key Keyboard.privacy_screen_toggle
into_key SwitchKey.prog1 = key Keyboard.prog1
into_key SwitchKey.prog2 = key Keyboard.prog2
into_key SwitchKey.prog3 = key Keyboard.prog3
into_key SwitchKey.prog4 = key Keyboard.prog4
into_key SwitchKey.program = key Keyboard.program
into_key SwitchKey.props = key Keyboard.props
into_key SwitchKey.pvr = key Keyboard.pvr
into_key SwitchKey.q = key Keyboard.q
into_key SwitchKey.question = key Keyboard.question
into_key SwitchKey.r = key Keyboard.r
into_key SwitchKey.radio = key Keyboard.radio
into_key SwitchKey.record_key = key Keyboard.record_key
into_key SwitchKey.red = key Keyboard.red
into_key SwitchKey.redo = key Keyboard.redo
into_key SwitchKey.refresh = key Keyboard.refresh
into_key SwitchKey.reply = key Keyboard.reply
into_key SwitchKey.reserved = key Keyboard.reserved
into_key SwitchKey.restart = key Keyboard.restart
into_key SwitchKey.rewind = key Keyboard.rewind
into_key SwitchKey.rf_kill = key Keyboard.rf_kill
into_key SwitchKey.right = key Keyboard.right
into_key SwitchKey.right_down = key Keyboard.right_down
into_key SwitchKey.right_up = key Keyboard.right_up
into_key SwitchKey.right_alt = key Keyboard.right_alt
into_key SwitchKey.right_brace = key Keyboard.right_brace
into_key SwitchKey.right_ctrl = key Keyboard.right_ctrl
into_key SwitchKey.right_meta = key Keyboard.right_meta
into_key SwitchKey.right_shift = key Keyboard.right_shift
into_key SwitchKey.ro = key Keyboard.ro
into_key SwitchKey.root_menu = key Keyboard.root_menu
into_key SwitchKey.rotate_display = key Keyboard.rotate_display
into_key SwitchKey.rotate_lock_toggle = key Keyboard.rotate_lock_toggle
into_key SwitchKey.s = key Keyboard.s
into_key SwitchKey.sat = key Keyboard.sat
into_key SwitchKey.sat2 = key Keyboard.sat2
into_key SwitchKey.save = key Keyboard.save
into_key SwitchKey.scale = key Keyboard.scale
into_key SwitchKey.screensaver = key Keyboard.screensaver
into_key SwitchKey.scroll_down = key Keyboard.scroll_down
into_key SwitchKey.scroll_lock = key Keyboard.scroll_lock
into_key SwitchKey.scroll_up = key Keyboard.scroll_up
into_key SwitchKey.search_key = key Keyboard.search_key
into_key SwitchKey.select = key Keyboard.select
into_key SwitchKey.selective_screenshot = key Keyboard.selective_screenshot
into_key SwitchKey.semicolon = key Keyboard.semicolon
into_key SwitchKey.send = key Keyboard.send
into_key SwitchKey.send_file = key Keyboard.send_file
into_key SwitchKey.setup = key Keyboard.setup
into_key SwitchKey.shop = key Keyboard.shop
into_key SwitchKey.shuffle = key Keyboard.shuffle
into_key SwitchKey.slash = key Keyboard.slash
into_key SwitchKey.sleep = key Keyboard.sleep
into_key SwitchKey.slow = key Keyboard.slow
into_key SwitchKey.slow_reverse = key Keyboard.slow_reverse
into_key SwitchKey.sound = key Keyboard.sound
into_key SwitchKey.space = key Keyboard.space
into_key SwitchKey.spellcheck = key Keyboard.spellcheck
into_key SwitchKey.sport = key Keyboard.sport
into_key SwitchKey.spreadsheet = key Keyboard.spreadsheet
into_key SwitchKey.stop = key Keyboard.stop
into_key SwitchKey.stop_record = key Keyboard.stop_record
into_key SwitchKey.stop_cd = key Keyboard.stop_cd
into_key SwitchKey.subtitle = key Keyboard.subtitle
into_key SwitchKey.suspend = key Keyboard.suspend
into_key SwitchKey.switch_video_mode = key Keyboard.switch_video_mode
into_key SwitchKey.sys_rq = key Keyboard.sys_rq
into_key SwitchKey.t = key Keyboard.t
into_key SwitchKey.tab = key Keyboard.tab
into_key SwitchKey.tape = key Keyboard.tape
into_key SwitchKey.task_manager = key Keyboard.task_manager
into_key SwitchKey.teen = key Keyboard.teen
into_key SwitchKey.text = key Keyboard.text
into_key SwitchKey.time = key Keyboard.time
into_key SwitchKey.title = key Keyboard.title
into_key SwitchKey.touchpad_off = key Keyboard.touchpad_off
into_key SwitchKey.touchpad_on = key Keyboard.touchpad_on
into_key SwitchKey.touchpad_toggle = key Keyboard.touchpad_toggle
into_key SwitchKey.tuner = key Keyboard.tuner
into_key SwitchKey.tv = key Keyboard.tv
into_key SwitchKey.tv2 = key Keyboard.tv2
into_key SwitchKey.twen = key Keyboard.twen
into_key SwitchKey.u = key Keyboard.u
into_key SwitchKey.undo = key Keyboard.undo
into_key SwitchKey.unknown = key Keyboard.unknown
into_key SwitchKey.unmute = key Keyboard.unmute
into_key SwitchKey.up = key Keyboard.up
into_key SwitchKey.uwb = key Keyboard.uwb
into_key SwitchKey.v = key Keyboard.v
into_key SwitchKey.vcr = key Keyboard.vcr
into_key SwitchKey.vcr2 = key Keyboard.vcr2
into_key SwitchKey.vendor = key Keyboard.vendor
into_key SwitchKey.video = key Keyboard.video
into_key SwitchKey.video_next = key Keyboard.video_next
into_key SwitchKey.video_prev = key Keyboard.video_prev
into_key SwitchKey.video_phone = key Keyboard.video_phone
into_key SwitchKey.vod = key Keyboard.vod
into_key SwitchKey.voice_command = key Keyboard.voice_command
into_key SwitchKey.voice_mail = key Keyboard.voice_mail
into_key SwitchKey.volume_down = key Keyboard.volume_down
into_key SwitchKey.volume_up = key Keyboard.volume_up
into_key SwitchKey.w = key Keyboard.w
into_key SwitchKey.wake_up = key Keyboard.wake_up
into_key SwitchKey.wlan = key Keyboard.wlan
into_key SwitchKey.word_processor = key Keyboard.word_processor
into_key SwitchKey.wps_button = key Keyboard.wps_button
into_key SwitchKey.wwan = key Keyboard.wwan
into_key SwitchKey.www = key Keyboard.www
into_key SwitchKey.x = key Keyboard.x
into_key SwitchKey.xfer = key Keyboard.xfer
into_key SwitchKey.y = key Keyboard.y
into_key SwitchKey.yellow = key Keyboard.yellow
into_key SwitchKey.yen = key Keyboard.yen
into_key SwitchKey.z = key Keyboard.z
into_key SwitchKey.zenkaku_hankaku = key Keyboard.zenkaku_hankaku
into_key SwitchKey.zoom_in = key Keyboard.zoom_in
into_key SwitchKey.zoom_out = key Keyboard.zoom_out
into_key SwitchKey.zoom_reset = key Keyboard.zoom_reset
into_key SwitchKey.b0 = button Button.b0
into_key SwitchKey.b1 = button Button.b1
into_key SwitchKey.b2 = button Button.b2
into_key SwitchKey.b3 = button Button.b3
into_key SwitchKey.b4 = button Button.b4
into_key SwitchKey.b5 = button Button.b5
into_key SwitchKey.b6 = button Button.b6
into_key SwitchKey.b7 = button Button.b7
into_key SwitchKey.b8 = button Button.b8
into_key SwitchKey.b9 = button Button.b9
into_key SwitchKey.b_left = button Button.left
into_key SwitchKey.b_right = button Button.right
into_key SwitchKey.middle = button Button.middle
into_key SwitchKey.side = button Button.side
into_key SwitchKey.extra = button Button.extra
into_key SwitchKey.b_forward = button Button.forward
into_key SwitchKey.b_back = button Button.back
into_key SwitchKey.task = button Button.task
into_key SwitchKey.trigger = button Button.trigger
into_key SwitchKey.thumb = button Button.thumb
into_key SwitchKey.thumb2 = button Button.thumb2
into_key SwitchKey.top = button Button.top
into_key SwitchKey.top2 = button Button.top2
into_key SwitchKey.pinkie = button Button.pinkie
into_key SwitchKey.base = button Button.base
into_key SwitchKey.base2 = button Button.base2
into_key SwitchKey.base3 = button Button.base3
into_key SwitchKey.base4 = button Button.base4
into_key SwitchKey.base5 = button Button.base5
into_key SwitchKey.base6 = button Button.base6
into_key SwitchKey.dead = button Button.dead
into_key SwitchKey.south = button Button.south
into_key SwitchKey.east = button Button.east
into_key SwitchKey.b_c = button Button.c
into_key SwitchKey.north = button Button.north
into_key SwitchKey.west = button Button.west
into_key SwitchKey.b_z = button Button.z
into_key SwitchKey.tl = button Button.tl
into_key SwitchKey.tr = button Button.tr
into_key SwitchKey.tl2 = button Button.tl2
into_key SwitchKey.tr2 = button Button.tr2
into_key SwitchKey.b_select = button Button.select
into_key SwitchKey.start = button Button.start
into_key SwitchKey.b_mode = button Button.mode
into_key SwitchKey.thumb_l = button Button.thumb_l
into_key SwitchKey.thumb_r = button Button.thumb_r
into_key SwitchKey.tool_pen = button Button.tool_pen
into_key SwitchKey.tool_rubber = button Button.tool_rubber
into_key SwitchKey.tool_brush = button Button.tool_brush
into_key SwitchKey.tool_pencil = button Button.tool_pencil
into_key SwitchKey.tool_airbrush = button Button.tool_airbrush
into_key SwitchKey.tool_finger = button Button.tool_finger
into_key SwitchKey.tool_mouse = button Button.tool_mouse
into_key SwitchKey.tool_lens = button Button.tool_lens
into_key SwitchKey.quint_tap = button Button.quint_tap
into_key SwitchKey.stylus3 = button Button.stylus3
into_key SwitchKey.touch = button Button.touch
into_key SwitchKey.stylus = button Button.stylus
into_key SwitchKey.stylus2 = button Button.stylus2
into_key SwitchKey.double_tap = button Button.double_tap
into_key SwitchKey.triple_tap = button Button.triple_tap
into_key SwitchKey.quad_tap = button Button.quad_tap
into_key SwitchKey.gear_down = button Button.gear_down
into_key SwitchKey.gear_up = button Button.gear_up
into_key SwitchKey.dpad_up = button Button.dpad_up
into_key SwitchKey.dpad_down = button Button.dpad_down
into_key SwitchKey.dpad_left = button Button.dpad_left
into_key SwitchKey.dpad_right = button Button.dpad_right
into_key SwitchKey.trigger_happy1 = button Button.trigger_happy1
into_key SwitchKey.triger_happy2 = button Button.triger_happy2
into_key SwitchKey.trigger_happy3 = button Button.trigger_happy3
into_key SwitchKey.trigger_happy4 = button Button.trigger_happy4
into_key SwitchKey.trigger_happy5 = button Button.trigger_happy5
into_key SwitchKey.trigger_happy6 = button Button.trigger_happy6
into_key SwitchKey.trigger_happy7 = button Button.trigger_happy7
into_key SwitchKey.trigger_happy8 = button Button.trigger_happy8
into_key SwitchKey.trigger_happy9 = button Button.trigger_happy9
into_key SwitchKey.trigger_happy10 = button Button.trigger_happy10
into_key SwitchKey.trigger_happy11 = button Button.trigger_happy11
into_key SwitchKey.trigger_happy12 = button Button.trigger_happy12
into_key SwitchKey.trigger_happy13 = button Button.trigger_happy13
into_key SwitchKey.trigger_happy14 = button Button.trigger_happy14
into_key SwitchKey.trigger_happy15 = button Button.trigger_happy15
into_key SwitchKey.trigger_happy16 = button Button.trigger_happy16
into_key SwitchKey.trigger_happy17 = button Button.trigger_happy17
into_key SwitchKey.trigger_happy18 = button Button.trigger_happy18
into_key SwitchKey.trigger_happy19 = button Button.trigger_happy19
into_key SwitchKey.trigger_happy20 = button Button.trigger_happy20
into_key SwitchKey.trigger_happy21 = button Button.trigger_happy21
into_key SwitchKey.trigger_happy22 = button Button.trigger_happy22
into_key SwitchKey.trigger_happy23 = button Button.trigger_happy23
into_key SwitchKey.trigger_happy24 = button Button.trigger_happy24
into_key SwitchKey.trigger_happy25 = button Button.trigger_happy25
into_key SwitchKey.trigger_happy26 = button Button.trigger_happy26
into_key SwitchKey.trigger_happy27 = button Button.trigger_happy27
into_key SwitchKey.trigger_happy28 = button Button.trigger_happy28
into_key SwitchKey.trigger_happy29 = button Button.trigger_happy29
into_key SwitchKey.trigger_happy30 = button Button.trigger_happy30
into_key SwitchKey.trigger_happy31 = button Button.trigger_happy31
into_key SwitchKey.trigger_happy32 = button Button.trigger_happy32
into_key SwitchKey.trigger_happy33 = button Button.trigger_happy33
into_key SwitchKey.trigger_happy34 = button Button.trigger_happy34
into_key SwitchKey.trigger_happy35 = button Button.trigger_happy35
into_key SwitchKey.trigger_happy36 = button Button.trigger_happy36
into_key SwitchKey.trigger_happy37 = button Button.trigger_happy37
into_key SwitchKey.trigger_happy38 = button Button.trigger_happy38
into_key SwitchKey.trigger_happy39 = button Button.trigger_happy39
into_key SwitchKey.trigger_happy40 = button Button.trigger_happy40
