-- ===== src/App/Renderer.antt =====
-- src/renderer.cpp: `Renderer`. SDL is an argument: whether it creates a window, a renderer and a
-- texture, and what `SDL_UpdateTexture` does with the bytes from a pointer on. Its handles are
-- opaque. An `int` is its 32 bits.
use simple_risc_v_emulator.Common.{ℕ, ◌*◌, ◌%◌, ◌^◌, List, [], ◌∷◌, Bool, not}
use simple_risc_v_emulator.Common.{Result, ok, throw_if}
use simple_risc_v_emulator.Common.{runtime_error, no_sdl_window, no_sdl_renderer, no_sdl_texture}
use simple_risc_v_emulator.App.Calls.{
  Call, sdl_create_window, sdl_set_window_minimum_size, sdl_create_renderer, sdl_set_render_vsync,
  sdl_create_texture, sdl_set_texture_scale_mode, sdl_destroy_texture, sdl_destroy_renderer,
  sdl_destroy_window, sdl_set_render_draw_color, sdl_render_clear, sdl_render_texture,
  sdl_render_present, sdl_update_texture, Traced, ◌>>◌, lift, called, emit,
}

-- The answers of SDL. `update_texture width height pixels pitch` is on a texture of that size.
pub record Sdl : Type 0 where
  pub window_created : ℕ → ℕ → Bool
  pub renderer_created : Bool
  pub texture_created : ℕ → ℕ → Bool
  pub update_texture : ℕ → ℕ → List ℕ → ℕ → Result (Unit {0})

pub record Renderer : Type 0 where
  pub framebuffer_width : ℕ
  pub framebuffer_height : ℕ

-- The constructor. It throws without a call of the destructor.
unfoldable pub make_renderer : Sdl → ℕ → ℕ → Traced Renderer
make_renderer sdl width height = do
  let w = width % 2 ^ 32
  let h = height % 2 ^ 32
  emit (sdl_create_window w h)
  lift (throw_if (not (sdl.window_created w h)) (runtime_error no_sdl_window))
  emit (sdl_set_window_minimum_size w h)
  emit sdl_create_renderer
  emit (sdl_set_render_vsync sdl.renderer_created)
  lift (throw_if (not sdl.renderer_created) (runtime_error no_sdl_renderer))
  emit (sdl_create_texture w h)
  lift (throw_if (not (sdl.texture_created w h)) (runtime_error no_sdl_texture))
  emit sdl_set_texture_scale_mode
  lift (ok (record { framebuffer_width = width; framebuffer_height = height }))

-- The calls of `~Renderer`.
abbrev pub destroy_renderer : List Call
destroy_renderer = sdl_destroy_texture ∷ sdl_destroy_renderer ∷ sdl_destroy_window ∷ []

unfoldable pub present_empty_frame : Traced (Unit {0})
present_empty_frame = do
  emit (sdl_set_render_draw_color 0x00 0x00 0x00 0xff)
  emit sdl_render_clear
  emit sdl_render_present

-- `sizeof(Pixel)`
abbrev pub pixel_size : ℕ
pixel_size = 4

-- `static_cast<int>(framebufferWidth * sizeof(Pixel))`
abbrev pub framebuffer_pitch : Renderer → ℕ
framebuffer_pitch r = r.framebuffer_width * pixel_size % 2 ^ 64 % 2 ^ 32

-- `presentFramebuffer`, with the bytes from the framebuffer's first on.
unfoldable pub present_framebuffer : Sdl → Renderer → List ℕ → Traced (Unit {0})
present_framebuffer sdl r pixels = do
  let pitch = framebuffer_pitch r
  called (sdl_update_texture pitch)
      (sdl.update_texture r.framebuffer_width r.framebuffer_height pixels pitch)
  emit (sdl_set_render_draw_color 0x00 0x00 0x00 0xff)
  emit sdl_render_clear
  emit sdl_render_texture
  emit sdl_render_present
