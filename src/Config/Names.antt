-- ===== src/Config/Names.antt =====
-- rkvm-server/src/config.rs: each key has exactly one name in the configuration.
use rkvm.Prelude.{◌≡◌, refl, sym, ap, ◌∙◌}
use rkvm.Input.Key.{Key, key, button}
use rkvm.Input.Key.Keys.{Keyboard}
use rkvm.Input.Key.Buttons.{Button}
use rkvm.Config.SwitchKeys.{SwitchKey, into_key}

-- The name of a key.
unfoldable pub name_of : Key → SwitchKey
name_of (key Keyboard.a) = SwitchKey.a
name_of (key Keyboard.ab) = SwitchKey.ab
name_of (key Keyboard.address_book) = SwitchKey.address_book
name_of (key Keyboard.again) = SwitchKey.again
name_of (key Keyboard.als_toggle) = SwitchKey.als_toggle
name_of (key Keyboard.alt_erase) = SwitchKey.alt_erase
name_of (key Keyboard.angle) = SwitchKey.angle
name_of (key Keyboard.apostrophe) = SwitchKey.apostrophe
name_of (key Keyboard.appselect) = SwitchKey.appselect
name_of (key Keyboard.archive) = SwitchKey.archive
name_of (key Keyboard.aspect_ratio) = SwitchKey.aspect_ratio
name_of (key Keyboard.assistant) = SwitchKey.assistant
name_of (key Keyboard.attendant_off) = SwitchKey.attendant_off
name_of (key Keyboard.attendant_on) = SwitchKey.attendant_on
name_of (key Keyboard.attendant_toggle) = SwitchKey.attendant_toggle
name_of (key Keyboard.audio) = SwitchKey.audio
name_of (key Keyboard.audio_desc) = SwitchKey.audio_desc
name_of (key Keyboard.aux) = SwitchKey.aux
name_of (key Keyboard.b) = SwitchKey.b
name_of (key Keyboard.back) = SwitchKey.back
name_of (key Keyboard.backslash) = SwitchKey.backslash
name_of (key Keyboard.backspace) = SwitchKey.backspace
name_of (key Keyboard.bass_boost) = SwitchKey.bass_boost
name_of (key Keyboard.battery) = SwitchKey.battery
name_of (key Keyboard.blue) = SwitchKey.blue
name_of (key Keyboard.bluetooth) = SwitchKey.bluetooth
name_of (key Keyboard.bookmarks) = SwitchKey.bookmarks
name_of (key Keyboard.break) = SwitchKey.break
name_of (key Keyboard.brightness_auto) = SwitchKey.brightness_auto
name_of (key Keyboard.brightness_cycle) = SwitchKey.brightness_cycle
name_of (key Keyboard.brightness_max) = SwitchKey.brightness_max
name_of (key Keyboard.brightness_min) = SwitchKey.brightness_min
name_of (key Keyboard.brightness_toggle) = SwitchKey.brightness_toggle
name_of (key Keyboard.brightness_down) = SwitchKey.brightness_down
name_of (key Keyboard.brightness_up) = SwitchKey.brightness_up
name_of (key Keyboard.brl_dot1) = SwitchKey.brl_dot1
name_of (key Keyboard.brl_dot10) = SwitchKey.brl_dot10
name_of (key Keyboard.brl_dot2) = SwitchKey.brl_dot2
name_of (key Keyboard.brl_dot3) = SwitchKey.brl_dot3
name_of (key Keyboard.brl_dot4) = SwitchKey.brl_dot4
name_of (key Keyboard.brl_dot5) = SwitchKey.brl_dot5
name_of (key Keyboard.brl_dot6) = SwitchKey.brl_dot6
name_of (key Keyboard.brl_dot7) = SwitchKey.brl_dot7
name_of (key Keyboard.brl_dot8) = SwitchKey.brl_dot8
name_of (key Keyboard.brl_dot9) = SwitchKey.brl_dot9
name_of (key Keyboard.button_config) = SwitchKey.button_config
name_of (key Keyboard.c) = SwitchKey.c
name_of (key Keyboard.calc) = SwitchKey.calc
name_of (key Keyboard.calendar) = SwitchKey.calendar
name_of (key Keyboard.camera) = SwitchKey.camera
name_of (key Keyboard.camera_down) = SwitchKey.camera_down
name_of (key Keyboard.camera_focus) = SwitchKey.camera_focus
name_of (key Keyboard.camera_left) = SwitchKey.camera_left
name_of (key Keyboard.camera_right) = SwitchKey.camera_right
name_of (key Keyboard.camera_up) = SwitchKey.camera_up
name_of (key Keyboard.camera_zoom_in) = SwitchKey.camera_zoom_in
name_of (key Keyboard.camera_zoom_out) = SwitchKey.camera_zoom_out
name_of (key Keyboard.cancel) = SwitchKey.cancel
name_of (key Keyboard.caps_lock) = SwitchKey.caps_lock
name_of (key Keyboard.cd) = SwitchKey.cd
name_of (key Keyboard.channel) = SwitchKey.channel
name_of (key Keyboard.channel_down) = SwitchKey.channel_down
name_of (key Keyboard.channel_up) = SwitchKey.channel_up
name_of (key Keyboard.chat) = SwitchKey.chat
name_of (key Keyboard.clear) = SwitchKey.clear
name_of (key Keyboard.close) = SwitchKey.close
name_of (key Keyboard.close_cd) = SwitchKey.close_cd
name_of (key Keyboard.coffee) = SwitchKey.coffee
name_of (key Keyboard.comma) = SwitchKey.comma
name_of (key Keyboard.compose) = SwitchKey.compose
name_of (key Keyboard.computer) = SwitchKey.computer
name_of (key Keyboard.config) = SwitchKey.config
name_of (key Keyboard.connect) = SwitchKey.connect
name_of (key Keyboard.context_menu) = SwitchKey.context_menu
name_of (key Keyboard.controlpanel) = SwitchKey.controlpanel
name_of (key Keyboard.copy) = SwitchKey.copy
name_of (key Keyboard.cut) = SwitchKey.cut
name_of (key Keyboard.cycle_windows) = SwitchKey.cycle_windows
name_of (key Keyboard.d) = SwitchKey.d
name_of (key Keyboard.dashboard) = SwitchKey.dashboard
name_of (key Keyboard.data_key) = SwitchKey.data_key
name_of (key Keyboard.database) = SwitchKey.database
name_of (key Keyboard.del_eol) = SwitchKey.del_eol
name_of (key Keyboard.del_eos) = SwitchKey.del_eos
name_of (key Keyboard.del_line) = SwitchKey.del_line
name_of (key Keyboard.delete) = SwitchKey.delete
name_of (key Keyboard.delete_file) = SwitchKey.delete_file
name_of (key Keyboard.digits) = SwitchKey.digits
name_of (key Keyboard.directory) = SwitchKey.directory
name_of (key Keyboard.display_off) = SwitchKey.display_off
name_of (key Keyboard.display_toggle) = SwitchKey.display_toggle
name_of (key Keyboard.documents) = SwitchKey.documents
name_of (key Keyboard.dollar) = SwitchKey.dollar
name_of (key Keyboard.dot) = SwitchKey.dot
name_of (key Keyboard.down) = SwitchKey.down
name_of (key Keyboard.dvd) = SwitchKey.dvd
name_of (key Keyboard.e) = SwitchKey.e
name_of (key Keyboard.edit) = SwitchKey.edit
name_of (key Keyboard.editor) = SwitchKey.editor
name_of (key Keyboard.eject_cd) = SwitchKey.eject_cd
name_of (key Keyboard.eject_close_cd) = SwitchKey.eject_close_cd
name_of (key Keyboard.email) = SwitchKey.email
name_of (key Keyboard.end) = SwitchKey.end
name_of (key Keyboard.enter) = SwitchKey.enter
name_of (key Keyboard.epg) = SwitchKey.epg
name_of (key Keyboard.equal) = SwitchKey.equal
name_of (key Keyboard.esc) = SwitchKey.esc
name_of (key Keyboard.euro) = SwitchKey.euro
name_of (key Keyboard.exit) = SwitchKey.exit
name_of (key Keyboard.f) = SwitchKey.f
name_of (key Keyboard.f1) = SwitchKey.f1
name_of (key Keyboard.f10) = SwitchKey.f10
name_of (key Keyboard.f11) = SwitchKey.f11
name_of (key Keyboard.f12) = SwitchKey.f12
name_of (key Keyboard.f13) = SwitchKey.f13
name_of (key Keyboard.f14) = SwitchKey.f14
name_of (key Keyboard.f15) = SwitchKey.f15
name_of (key Keyboard.f16) = SwitchKey.f16
name_of (key Keyboard.f17) = SwitchKey.f17
name_of (key Keyboard.f18) = SwitchKey.f18
name_of (key Keyboard.f19) = SwitchKey.f19
name_of (key Keyboard.f2) = SwitchKey.f2
name_of (key Keyboard.f20) = SwitchKey.f20
name_of (key Keyboard.f21) = SwitchKey.f21
name_of (key Keyboard.f22) = SwitchKey.f22
name_of (key Keyboard.f23) = SwitchKey.f23
name_of (key Keyboard.f24) = SwitchKey.f24
name_of (key Keyboard.f3) = SwitchKey.f3
name_of (key Keyboard.f4) = SwitchKey.f4
name_of (key Keyboard.f5) = SwitchKey.f5
name_of (key Keyboard.f6) = SwitchKey.f6
name_of (key Keyboard.f7) = SwitchKey.f7
name_of (key Keyboard.f8) = SwitchKey.f8
name_of (key Keyboard.f9) = SwitchKey.f9
name_of (key Keyboard.fast_forward) = SwitchKey.fast_forward
name_of (key Keyboard.fast_reverse) = SwitchKey.fast_reverse
name_of (key Keyboard.favorites) = SwitchKey.favorites
name_of (key Keyboard.file) = SwitchKey.file
name_of (key Keyboard.finance) = SwitchKey.finance
name_of (key Keyboard.find) = SwitchKey.find
name_of (key Keyboard.first) = SwitchKey.first
name_of (key Keyboard.fn) = SwitchKey.fn
name_of (key Keyboard.fn1) = SwitchKey.fn1
name_of (key Keyboard.fn2) = SwitchKey.fn2
name_of (key Keyboard.fn_b) = SwitchKey.fn_b
name_of (key Keyboard.fn_d) = SwitchKey.fn_d
name_of (key Keyboard.fn_e) = SwitchKey.fn_e
name_of (key Keyboard.fn_esc) = SwitchKey.fn_esc
name_of (key Keyboard.fn_f) = SwitchKey.fn_f
name_of (key Keyboard.fn_f1) = SwitchKey.fn_f1
name_of (key Keyboard.fn_f10) = SwitchKey.fn_f10
name_of (key Keyboard.fn_f11) = SwitchKey.fn_f11
name_of (key Keyboard.fn_f12) = SwitchKey.fn_f12
name_of (key Keyboard.fn_f2) = SwitchKey.fn_f2
name_of (key Keyboard.fn_f3) = SwitchKey.fn_f3
name_of (key Keyboard.fn_f4) = SwitchKey.fn_f4
name_of (key Keyboard.fn_f5) = SwitchKey.fn_f5
name_of (key Keyboard.fn_f6) = SwitchKey.fn_f6
name_of (key Keyboard.fn_f7) = SwitchKey.fn_f7
name_of (key Keyboard.fn_f8) = SwitchKey.fn_f8
name_of (key Keyboard.fn_f9) = SwitchKey.fn_f9
name_of (key Keyboard.fn_s) = SwitchKey.fn_s
name_of (key Keyboard.forward) = SwitchKey.forward
name_of (key Keyboard.forward_mail) = SwitchKey.forward_mail
name_of (key Keyboard.frameback) = SwitchKey.frameback
name_of (key Keyboard.frame_forward) = SwitchKey.frame_forward
name_of (key Keyboard.front) = SwitchKey.front
name_of (key Keyboard.full_screen) = SwitchKey.full_screen
name_of (key Keyboard.g) = SwitchKey.g
name_of (key Keyboard.games) = SwitchKey.games
name_of (key Keyboard.goto) = SwitchKey.goto
name_of (key Keyboard.graphics_editor) = SwitchKey.graphics_editor
name_of (key Keyboard.grave) = SwitchKey.grave
name_of (key Keyboard.green) = SwitchKey.green
name_of (key Keyboard.h) = SwitchKey.h
name_of (key Keyboard.hangeul) = SwitchKey.hangeul
name_of (key Keyboard.hanja) = SwitchKey.hanja
name_of (key Keyboard.help) = SwitchKey.help
name_of (key Keyboard.henkan) = SwitchKey.henkan
name_of (key Keyboard.hiragana) = SwitchKey.hiragana
name_of (key Keyboard.home) = SwitchKey.home
name_of (key Keyboard.homepage) = SwitchKey.homepage
name_of (key Keyboard.hp) = SwitchKey.hp
name_of (key Keyboard.i) = SwitchKey.i
name_of (key Keyboard.images) = SwitchKey.images
name_of (key Keyboard.info) = SwitchKey.info
name_of (key Keyboard.ins_line) = SwitchKey.ins_line
name_of (key Keyboard.insert) = SwitchKey.insert
name_of (key Keyboard.iso) = SwitchKey.iso
name_of (key Keyboard.j) = SwitchKey.j
name_of (key Keyboard.journal) = SwitchKey.journal
name_of (key Keyboard.k) = SwitchKey.k
name_of (key Keyboard.katakana) = SwitchKey.katakana
name_of (key Keyboard.katakana_hiragana) = SwitchKey.katakana_hiragana
name_of (key Keyboard.kbd_layout_next) = SwitchKey.kbd_layout_next
name_of (key Keyboard.kbd_lcd_menu1) = SwitchKey.kbd_lcd_menu1
name_of (key Keyboard.kbd_lcd_menu2) = SwitchKey.kbd_lcd_menu2
name_of (key Keyboard.kbd_lcd_menu3) = SwitchKey.kbd_lcd_menu3
name_of (key Keyboard.kbd_lcd_menu4) = SwitchKey.kbd_lcd_menu4
name_of (key Keyboard.kbd_lcd_menu5) = SwitchKey.kbd_lcd_menu5
name_of (key Keyboard.kbd_illum_down) = SwitchKey.kbd_illum_down
name_of (key Keyboard.kbd_illum_toggle) = SwitchKey.kbd_illum_toggle
name_of (key Keyboard.kbd_illum_up) = SwitchKey.kbd_illum_up
name_of (key Keyboard.kbd_input_assist_accept) = SwitchKey.kbd_input_assist_accept
name_of (key Keyboard.kbd_input_assist_cancel) = SwitchKey.kbd_input_assist_cancel
name_of (key Keyboard.kbd_input_assist_next) = SwitchKey.kbd_input_assist_next
name_of (key Keyboard.kbd_input_assist_nextgroup) = SwitchKey.kbd_input_assist_nextgroup
name_of (key Keyboard.kbd_input_assist_prev) = SwitchKey.kbd_input_assist_prev
name_of (key Keyboard.kbd_input_assist_prevgroup) = SwitchKey.kbd_input_assist_prevgroup
name_of (key Keyboard.keyboard) = SwitchKey.keyboard
name_of (key Keyboard.kp0) = SwitchKey.kp0
name_of (key Keyboard.kp1) = SwitchKey.kp1
name_of (key Keyboard.kp2) = SwitchKey.kp2
name_of (key Keyboard.kp3) = SwitchKey.kp3
name_of (key Keyboard.kp4) = SwitchKey.kp4
name_of (key Keyboard.kp5) = SwitchKey.kp5
name_of (key Keyboard.kp6) = SwitchKey.kp6
name_of (key Keyboard.kp7) = SwitchKey.kp7
name_of (key Keyboard.kp8) = SwitchKey.kp8
name_of (key Keyboard.kp9) = SwitchKey.kp9
name_of (key Keyboard.kp_asterisk) = SwitchKey.kp_asterisk
name_of (key Keyboard.kp_comma) = SwitchKey.kp_comma
name_of (key Keyboard.kp_dot) = SwitchKey.kp_dott
name_of (key Keyboard.kp_enter) = SwitchKey.kp_enter
name_of (key Keyboard.kp_equal) = SwitchKey.kp_equal
name_of (key Keyboard.kp_jp_comma) = SwitchKey.kp_jp_comma
name_of (key Keyboard.kp_left_paren) = SwitchKey.kp_left_paren
name_of (key Keyboard.kp_minus) = SwitchKey.kp_minus
name_of (key Keyboard.kp_plus) = SwitchKey.kp_plus
name_of (key Keyboard.kp_plus_minus) = SwitchKey.kp_plus_minus
name_of (key Keyboard.kp_right_paren) = SwitchKey.kp_right_paren
name_of (key Keyboard.kp_slash) = SwitchKey.kp_slash
name_of (key Keyboard.l) = SwitchKey.l
name_of (key Keyboard.language) = SwitchKey.language
name_of (key Keyboard.last) = SwitchKey.last
name_of (key Keyboard.left) = SwitchKey.left
name_of (key Keyboard.left_down) = SwitchKey.left_down
name_of (key Keyboard.left_up) = SwitchKey.left_up
name_of (key Keyboard.left_alt) = SwitchKey.left_alt
name_of (key Keyboard.left_brace) = SwitchKey.left_brace
name_of (key Keyboard.left_ctrl) = SwitchKey.left_ctrl
name_of (key Keyboard.left_meta) = SwitchKey.left_meta
name_of (key Keyboard.left_shift) = SwitchKey.left_shift
name_of (key Keyboard.lights_toggle) = SwitchKey.lights_toggle
name_of (key Keyboard.line_feed) = SwitchKey.line_feed
name_of (key Keyboard.list) = SwitchKey.list
name_of (key Keyboard.log_off) = SwitchKey.log_off
name_of (key Keyboard.m) = SwitchKey.m
name_of (key Keyboard.macro) = SwitchKey.macro
name_of (key Keyboard.macro1) = SwitchKey.macro1
name_of (key Keyboard.macro10) = SwitchKey.macro10
name_of (key Keyboard.macro11) = SwitchKey.macro11
name_of (key Keyboard.macro12) = SwitchKey.macro12
name_of (key Keyboard.macro13) = SwitchKey.macro13
name_of (key Keyboard.macro14) = SwitchKey.macro14
name_of (key Keyboard.macro15) = SwitchKey.macro15
name_of (key Keyboard.macro16) = SwitchKey.macro16
name_of (key Keyboard.macro17) = SwitchKey.macro17
name_of (key Keyboard.macro18) = SwitchKey.macro18
name_of (key Keyboard.macro19) = SwitchKey.macro19
name_of (key Keyboard.macro2) = SwitchKey.macro2
name_of (key Keyboard.macro20) = SwitchKey.macro20
name_of (key Keyboard.macro21) = SwitchKey.macro21
name_of (key Keyboard.macro22) = SwitchKey.macro22
name_of (key Keyboard.macro23) = SwitchKey.macro23
name_of (key Keyboard.macro24) = SwitchKey.macro24
name_of (key Keyboard.macro25) = SwitchKey.macro25
name_of (key Keyboard.macro26) = SwitchKey.macro26
name_of (key Keyboard.macro27) = SwitchKey.macro27
name_of (key Keyboard.macro28) = SwitchKey.macro28
name_of (key Keyboard.macro29) = SwitchKey.macro29
name_of (key Keyboard.macro3) = SwitchKey.macro3
name_of (key Keyboard.macro30) = SwitchKey.macro30
name_of (key Keyboard.macro4) = SwitchKey.macro4
name_of (key Keyboard.macro5) = SwitchKey.macro5
name_of (key Keyboard.macro6) = SwitchKey.macro6
name_of (key Keyboard.macro7) = SwitchKey.macro7
name_of (key Keyboard.macro8) = SwitchKey.macro8
name_of (key Keyboard.macro9) = SwitchKey.macro9
name_of (key Keyboard.macro_preset1) = SwitchKey.macro_preset1
name_of (key Keyboard.macro_preset2) = SwitchKey.macro_preset2
name_of (key Keyboard.macro_preset3) = SwitchKey.macro_preset3
name_of (key Keyboard.macro_preset_cycle) = SwitchKey.macro_preset_cycle
name_of (key Keyboard.macro_record_start) = SwitchKey.macro_record_start
name_of (key Keyboard.macro_record_stop) = SwitchKey.macro_record_stop
name_of (key Keyboard.mail) = SwitchKey.mail
name_of (key Keyboard.media) = SwitchKey.media
name_of (key Keyboard.media_repeat) = SwitchKey.media_repeat
name_of (key Keyboard.media_top_menu) = SwitchKey.media_top_menu
name_of (key Keyboard.memo) = SwitchKey.memo
name_of (key Keyboard.menu) = SwitchKey.menu
name_of (key Keyboard.messenger) = SwitchKey.messenger
name_of (key Keyboard.mhp) = SwitchKey.mhp
name_of (key Keyboard.mic_mute) = SwitchKey.mic_mute
name_of (key Keyboard.minus) = SwitchKey.minus
name_of (key Keyboard.mode) = SwitchKey.mode
name_of (key Keyboard.move) = SwitchKey.move
name_of (key Keyboard.mp3) = SwitchKey.mp3
name_of (key Keyboard.ms_dos) = SwitchKey.ms_dos
name_of (key Keyboard.muhenkan) = SwitchKey.muhenkan
name_of (key Keyboard.mute) = SwitchKey.mute
name_of (key Keyboard.n) = SwitchKey.n
name_of (key Keyboard.n0) = SwitchKey.n0
name_of (key Keyboard.n1) = SwitchKey.n1
name_of (key Keyboard.n102nd) = SwitchKey.n102nd
name_of (key Keyboard.n10_channels_down) = SwitchKey.n10_channels_down
name_of (key Keyboard.n10_channels_up) = SwitchKey.n10_channels_up
name_of (key Keyboard.n2) = SwitchKey.n2
name_of (key Keyboard.n3) = SwitchKey.n3
name_of (key Keyboard.n3d_mode) = SwitchKey.n3d_mode
name_of (key Keyboard.n4) = SwitchKey.n4
name_of (key Keyboard.n5) = SwitchKey.n5
name_of (key Keyboard.n6) = SwitchKey.n6
name_of (key Keyboard.n7) = SwitchKey.n7
name_of (key Keyboard.n8) = SwitchKey.n8
name_of (key Keyboard.n9) = SwitchKey.n9
name_of (key Keyboard.new) = SwitchKey.new
name_of (key Keyboard.news) = SwitchKey.news
name_of (key Keyboard.next) = SwitchKey.next
name_of (key Keyboard.next_favorite) = SwitchKey.next_favorite
name_of (key Keyboard.next_song) = SwitchKey.next_song
name_of (key Keyboard.numeric0) = SwitchKey.numeric0
name_of (key Keyboard.numeric1) = SwitchKey.numeric1
name_of (key Keyboard.numeric11) = SwitchKey.numeric11
name_of (key Keyboard.numeric12) = SwitchKey.numeric12
name_of (key Keyboard.numeric2) = SwitchKey.numeric2
name_of (key Keyboard.numeric3) = SwitchKey.numeric3
name_of (key Keyboard.numeric4) = SwitchKey.numeric4
name_of (key Keyboard.numeric5) = SwitchKey.numeric5
name_of (key Keyboard.numeric6) = SwitchKey.numeric6
name_of (key Keyboard.numeric7) = SwitchKey.numeric7
name_of (key Keyboard.numeric8) = SwitchKey.numeric8
name_of (key Keyboard.numeric9) = SwitchKey.numeric9
name_of (key Keyboard.numeric_a) = SwitchKey.numeric_a
name_of (key Keyboard.numeric_b) = SwitchKey.numeric_b
name_of (key Keyboard.numeric_c) = SwitchKey.numeric_c
name_of (key Keyboard.numeric_d) = SwitchKey.numeric_d
name_of (key Keyboard.numeric_pound) = SwitchKey.numeric_pound
name_of (key Keyboard.numeric_star) = SwitchKey.numeric_star
name_of (key Keyboard.num_lock) = SwitchKey.num_lock
name_of (key Keyboard.o) = SwitchKey.o
name_of (key Keyboard.ok) = SwitchKey.ok
name_of (key Keyboard.onscreen_keyboard) = SwitchKey.onscreen_keyboard
name_of (key Keyboard.open_key) = SwitchKey.open_key
name_of (key Keyboard.option) = SwitchKey.option
name_of (key Keyboard.p) = SwitchKey.p
name_of (key Keyboard.page_down) = SwitchKey.page_down
name_of (key Keyboard.page_up) = SwitchKey.page_up
name_of (key Keyboard.paste) = SwitchKey.paste
name_of (key Keyboard.pause) = SwitchKey.pause
name_of (key Keyboard.pause_record) = SwitchKey.pause_record
name_of (key Keyboard.pause_cd) = SwitchKey.pause_cd
name_of (key Keyboard.pc) = SwitchKey.pc
name_of (key Keyboard.phone) = SwitchKey.phone
name_of (key Keyboard.play) = SwitchKey.play
name_of (key Keyboard.play_cd) = SwitchKey.play_cd
name_of (key Keyboard.player) = SwitchKey.player
name_of (key Keyboard.play_pause) = SwitchKey.play_pause
name_of (key Keyboard.power) = SwitchKey.power
name_of (key Keyboard.power2) = SwitchKey.power2
name_of (key Keyboard.presentation) = SwitchKey.presentation
name_of (key Keyboard.previous) = SwitchKey.previous
name_of (key Keyboard.previous_song) = SwitchKey.previous_song
name_of (key Keyboard.print) = SwitchKey.print
name_of (key Keyboard.privacy_screen_toggle) = SwitchKey.privacy_screen_toggle
name_of (key Keyboard.prog1) = SwitchKey.prog1
name_of (key Keyboard.prog2) = SwitchKey.prog2
name_of (key Keyboard.prog3) = SwitchKey.prog3
name_of (key Keyboard.prog4) = SwitchKey.prog4
name_of (key Keyboard.program) = SwitchKey.program
name_of (key Keyboard.props) = SwitchKey.props
name_of (key Keyboard.pvr) = SwitchKey.pvr
name_of (key Keyboard.q) = SwitchKey.q
name_of (key Keyboard.question) = SwitchKey.question
name_of (key Keyboard.r) = SwitchKey.r
name_of (key Keyboard.radio) = SwitchKey.radio
name_of (key Keyboard.record_key) = SwitchKey.record_key
name_of (key Keyboard.red) = SwitchKey.red
name_of (key Keyboard.redo) = SwitchKey.redo
name_of (key Keyboard.refresh) = SwitchKey.refresh
name_of (key Keyboard.reply) = SwitchKey.reply
name_of (key Keyboard.reserved) = SwitchKey.reserved
name_of (key Keyboard.restart) = SwitchKey.restart
name_of (key Keyboard.rewind) = SwitchKey.rewind
name_of (key Keyboard.rf_kill) = SwitchKey.rf_kill
name_of (key Keyboard.right) = SwitchKey.right
name_of (key Keyboard.right_down) = SwitchKey.right_down
name_of (key Keyboard.right_up) = SwitchKey.right_up
name_of (key Keyboard.right_alt) = SwitchKey.right_alt
name_of (key Keyboard.right_brace) = SwitchKey.right_brace
name_of (key Keyboard.right_ctrl) = SwitchKey.right_ctrl
name_of (key Keyboard.right_meta) = SwitchKey.right_meta
name_of (key Keyboard.right_shift) = SwitchKey.right_shift
name_of (key Keyboard.ro) = SwitchKey.ro
name_of (key Keyboard.root_menu) = SwitchKey.root_menu
name_of (key Keyboard.rotate_display) = SwitchKey.rotate_display
name_of (key Keyboard.rotate_lock_toggle) = SwitchKey.rotate_lock_toggle
name_of (key Keyboard.s) = SwitchKey.s
name_of (key Keyboard.sat) = SwitchKey.sat
name_of (key Keyboard.sat2) = SwitchKey.sat2
name_of (key Keyboard.save) = SwitchKey.save
name_of (key Keyboard.scale) = SwitchKey.scale
name_of (key Keyboard.screensaver) = SwitchKey.screensaver
name_of (key Keyboard.scroll_down) = SwitchKey.scroll_down
name_of (key Keyboard.scroll_lock) = SwitchKey.scroll_lock
name_of (key Keyboard.scroll_up) = SwitchKey.scroll_up
name_of (key Keyboard.search_key) = SwitchKey.search_key
name_of (key Keyboard.select) = SwitchKey.select
name_of (key Keyboard.selective_screenshot) = SwitchKey.selective_screenshot
name_of (key Keyboard.semicolon) = SwitchKey.semicolon
name_of (key Keyboard.send) = SwitchKey.send
name_of (key Keyboard.send_file) = SwitchKey.send_file
name_of (key Keyboard.setup) = SwitchKey.setup
name_of (key Keyboard.shop) = SwitchKey.shop
name_of (key Keyboard.shuffle) = SwitchKey.shuffle
name_of (key Keyboard.slash) = SwitchKey.slash
name_of (key Keyboard.sleep) = SwitchKey.sleep
name_of (key Keyboard.slow) = SwitchKey.slow
name_of (key Keyboard.slow_reverse) = SwitchKey.slow_reverse
name_of (key Keyboard.sound) = SwitchKey.sound
name_of (key Keyboard.space) = SwitchKey.space
name_of (key Keyboard.spellcheck) = SwitchKey.spellcheck
name_of (key Keyboard.sport) = SwitchKey.sport
name_of (key Keyboard.spreadsheet) = SwitchKey.spreadsheet
name_of (key Keyboard.stop) = SwitchKey.stop
name_of (key Keyboard.stop_record) = SwitchKey.stop_record
name_of (key Keyboard.stop_cd) = SwitchKey.stop_cd
name_of (key Keyboard.subtitle) = SwitchKey.subtitle
name_of (key Keyboard.suspend) = SwitchKey.suspend
name_of (key Keyboard.switch_video_mode) = SwitchKey.switch_video_mode
name_of (key Keyboard.sys_rq) = SwitchKey.sys_rq
name_of (key Keyboard.t) = SwitchKey.t
name_of (key Keyboard.tab) = SwitchKey.tab
name_of (key Keyboard.tape) = SwitchKey.tape
name_of (key Keyboard.task_manager) = SwitchKey.task_manager
name_of (key Keyboard.teen) = SwitchKey.teen
name_of (key Keyboard.text) = SwitchKey.text
name_of (key Keyboard.time) = SwitchKey.time
name_of (key Keyboard.title) = SwitchKey.title
name_of (key Keyboard.touchpad_off) = SwitchKey.touchpad_off
name_of (key Keyboard.touchpad_on) = SwitchKey.touchpad_on
name_of (key Keyboard.touchpad_toggle) = SwitchKey.touchpad_toggle
name_of (key Keyboard.tuner) = SwitchKey.tuner
name_of (key Keyboard.tv) = SwitchKey.tv
name_of (key Keyboard.tv2) = SwitchKey.tv2
name_of (key Keyboard.twen) = SwitchKey.twen
name_of (key Keyboard.u) = SwitchKey.u
name_of (key Keyboard.undo) = SwitchKey.undo
name_of (key Keyboard.unknown) = SwitchKey.unknown
name_of (key Keyboard.unmute) = SwitchKey.unmute
name_of (key Keyboard.up) = SwitchKey.up
name_of (key Keyboard.uwb) = SwitchKey.uwb
name_of (key Keyboard.v) = SwitchKey.v
name_of (key Keyboard.vcr) = SwitchKey.vcr
name_of (key Keyboard.vcr2) = SwitchKey.vcr2
name_of (key Keyboard.vendor) = SwitchKey.vendor
name_of (key Keyboard.video) = SwitchKey.video
name_of (key Keyboard.video_next) = SwitchKey.video_next
name_of (key Keyboard.video_prev) = SwitchKey.video_prev
name_of (key Keyboard.video_phone) = SwitchKey.video_phone
name_of (key Keyboard.vod) = SwitchKey.vod
name_of (key Keyboard.voice_command) = SwitchKey.voice_command
name_of (key Keyboard.voice_mail) = SwitchKey.voice_mail
name_of (key Keyboard.volume_down) = SwitchKey.volume_down
name_of (key Keyboard.volume_up) = SwitchKey.volume_up
name_of (key Keyboard.w) = SwitchKey.w
name_of (key Keyboard.wake_up) = SwitchKey.wake_up
name_of (key Keyboard.wlan) = SwitchKey.wlan
name_of (key Keyboard.word_processor) = SwitchKey.word_processor
name_of (key Keyboard.wps_button) = SwitchKey.wps_button
name_of (key Keyboard.wwan) = SwitchKey.wwan
name_of (key Keyboard.www) = SwitchKey.www
name_of (key Keyboard.x) = SwitchKey.x
name_of (key Keyboard.xfer) = SwitchKey.xfer
name_of (key Keyboard.y) = SwitchKey.y
name_of (key Keyboard.yellow) = SwitchKey.yellow
name_of (key Keyboard.yen) = SwitchKey.yen
name_of (key Keyboard.z) = SwitchKey.z
name_of (key Keyboard.zenkaku_hankaku) = SwitchKey.zenkaku_hankaku
name_of (key Keyboard.zoom_in) = SwitchKey.zoom_in
name_of (key Keyboard.zoom_out) = SwitchKey.zoom_out
name_of (key Keyboard.zoom_reset) = SwitchKey.zoom_reset
name_of (button Button.b0) = SwitchKey.b0
name_of (button Button.b1) = SwitchKey.b1
name_of (button Button.b2) = SwitchKey.b2
name_of (button Button.b3) = SwitchKey.b3
name_of (button Button.b4) = SwitchKey.b4
name_of (button Button.b5) = SwitchKey.b5
name_of (button Button.b6) = SwitchKey.b6
name_of (button Button.b7) = SwitchKey.b7
name_of (button Button.b8) = SwitchKey.b8
name_of (button Button.b9) = SwitchKey.b9
name_of (button Button.left) = SwitchKey.b_left
name_of (button Button.right) = SwitchKey.b_right
name_of (button Button.middle) = SwitchKey.middle
name_of (button Button.side) = SwitchKey.side
name_of (button Button.extra) = SwitchKey.extra
name_of (button Button.forward) = SwitchKey.b_forward
name_of (button Button.back) = SwitchKey.b_back
name_of (button Button.task) = SwitchKey.task
name_of (button Button.trigger) = SwitchKey.trigger
name_of (button Button.thumb) = SwitchKey.thumb
name_of (button Button.thumb2) = SwitchKey.thumb2
name_of (button Button.top) = SwitchKey.top
name_of (button Button.top2) = SwitchKey.top2
name_of (button Button.pinkie) = SwitchKey.pinkie
name_of (button Button.base) = SwitchKey.base
name_of (button Button.base2) = SwitchKey.base2
name_of (button Button.base3) = SwitchKey.base3
name_of (button Button.base4) = SwitchKey.base4
name_of (button Button.base5) = SwitchKey.base5
name_of (button Button.base6) = SwitchKey.base6
name_of (button Button.dead) = SwitchKey.dead
name_of (button Button.south) = SwitchKey.south
name_of (button Button.east) = SwitchKey.east
name_of (button Button.c) = SwitchKey.b_c
name_of (button Button.north) = SwitchKey.north
name_of (button Button.west) = SwitchKey.west
name_of (button Button.z) = SwitchKey.b_z
name_of (button Button.tl) = SwitchKey.tl
name_of (button Button.tr) = SwitchKey.tr
name_of (button Button.tl2) = SwitchKey.tl2
name_of (button Button.tr2) = SwitchKey.tr2
name_of (button Button.select) = SwitchKey.b_select
name_of (button Button.start) = SwitchKey.start
name_of (button Button.mode) = SwitchKey.b_mode
name_of (button Button.thumb_l) = SwitchKey.thumb_l
name_of (button Button.thumb_r) = SwitchKey.thumb_r
name_of (button Button.tool_pen) = SwitchKey.tool_pen
name_of (button Button.tool_rubber) = SwitchKey.tool_rubber
name_of (button Button.tool_brush) = SwitchKey.tool_brush
name_of (button Button.tool_pencil) = SwitchKey.tool_pencil
name_of (button Button.tool_airbrush) = SwitchKey.tool_airbrush
name_of (button Button.tool_finger) = SwitchKey.tool_finger
name_of (button Button.tool_mouse) = SwitchKey.tool_mouse
name_of (button Button.tool_lens) = SwitchKey.tool_lens
name_of (button Button.quint_tap) = SwitchKey.quint_tap
name_of (button Button.stylus3) = SwitchKey.stylus3
name_of (button Button.touch) = SwitchKey.touch
name_of (button Button.stylus) = SwitchKey.stylus
name_of (button Button.stylus2) = SwitchKey.stylus2
name_of (button Button.double_tap) = SwitchKey.double_tap
name_of (button Button.triple_tap) = SwitchKey.triple_tap
name_of (button Button.quad_tap) = SwitchKey.quad_tap
name_of (button Button.gear_down) = SwitchKey.gear_down
name_of (button Button.gear_up) = SwitchKey.gear_up
name_of (button Button.dpad_up) = SwitchKey.dpad_up
name_of (button Button.dpad_down) = SwitchKey.dpad_down
name_of (button Button.dpad_left) = SwitchKey.dpad_left
name_of (button Button.dpad_right) = SwitchKey.dpad_right
name_of (button Button.trigger_happy1) = SwitchKey.trigger_happy1
name_of (button Button.triger_happy2) = SwitchKey.triger_happy2
name_of (button Button.trigger_happy3) = SwitchKey.trigger_happy3
name_of (button Button.trigger_happy4) = SwitchKey.trigger_happy4
name_of (button Button.trigger_happy5) = SwitchKey.trigger_happy5
name_of (button Button.trigger_happy6) = SwitchKey.trigger_happy6
name_of (button Button.trigger_happy7) = SwitchKey.trigger_happy7
name_of (button Button.trigger_happy8) = SwitchKey.trigger_happy8
name_of (button Button.trigger_happy9) = SwitchKey.trigger_happy9
name_of (button Button.trigger_happy10) = SwitchKey.trigger_happy10
name_of (button Button.trigger_happy11) = SwitchKey.trigger_happy11
name_of (button Button.trigger_happy12) = SwitchKey.trigger_happy12
name_of (button Button.trigger_happy13) = SwitchKey.trigger_happy13
name_of (button Button.trigger_happy14) = SwitchKey.trigger_happy14
name_of (button Button.trigger_happy15) = SwitchKey.trigger_happy15
name_of (button Button.trigger_happy16) = SwitchKey.trigger_happy16
name_of (button Button.trigger_happy17) = SwitchKey.trigger_happy17
name_of (button Button.trigger_happy18) = SwitchKey.trigger_happy18
name_of (button Button.trigger_happy19) = SwitchKey.trigger_happy19
name_of (button Button.trigger_happy20) = SwitchKey.trigger_happy20
name_of (button Button.trigger_happy21) = SwitchKey.trigger_happy21
name_of (button Button.trigger_happy22) = SwitchKey.trigger_happy22
name_of (button Button.trigger_happy23) = SwitchKey.trigger_happy23
name_of (button Button.trigger_happy24) = SwitchKey.trigger_happy24
name_of (button Button.trigger_happy25) = SwitchKey.trigger_happy25
name_of (button Button.trigger_happy26) = SwitchKey.trigger_happy26
name_of (button Button.trigger_happy27) = SwitchKey.trigger_happy27
name_of (button Button.trigger_happy28) = SwitchKey.trigger_happy28
name_of (button Button.trigger_happy29) = SwitchKey.trigger_happy29
name_of (button Button.trigger_happy30) = SwitchKey.trigger_happy30
name_of (button Button.trigger_happy31) = SwitchKey.trigger_happy31
name_of (button Button.trigger_happy32) = SwitchKey.trigger_happy32
name_of (button Button.trigger_happy33) = SwitchKey.trigger_happy33
name_of (button Button.trigger_happy34) = SwitchKey.trigger_happy34
name_of (button Button.trigger_happy35) = SwitchKey.trigger_happy35
name_of (button Button.trigger_happy36) = SwitchKey.trigger_happy36
name_of (button Button.trigger_happy37) = SwitchKey.trigger_happy37
name_of (button Button.trigger_happy38) = SwitchKey.trigger_happy38
name_of (button Button.trigger_happy39) = SwitchKey.trigger_happy39
name_of (button Button.trigger_happy40) = SwitchKey.trigger_happy40

name_of-into_key : (name : SwitchKey) → name_of (into_key name) ≡ name
unfolding name_of into_key
name_of-into_key SwitchKey.a = refl
name_of-into_key _ = refl

into_key-name_of : (it : Key) → into_key (name_of it) ≡ it
unfolding name_of into_key
into_key-name_of (key Keyboard.a) = refl
into_key-name_of (key _) = refl
into_key-name_of (button Button.b0) = refl
into_key-name_of (button _) = refl

pub into_key-injective : (name other : SwitchKey) → into_key name ≡ into_key other → name ≡ other
into_key-injective name other e =
    sym (name_of-into_key name) ∙ ap name_of e ∙ name_of-into_key other

-- The conversion of the names of keys is one to one: no two names of the configuration stand for one
-- key, and every key has a name.
pub into_key-bijective :
    ((name other : SwitchKey) → into_key name ≡ into_key other → name ≡ other)
    × ((it : Key) → (name : SwitchKey) × (into_key name ≡ it))
into_key-bijective = (into_key-injective, λ it. (name_of it, into_key-name_of it))
